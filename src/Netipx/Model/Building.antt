-- ===== src/Netipx/Model/Building.antt =====
-- Sets of the implementation that are built from addresses, prefixes and ranges.
use kube_vip_cloud_provider.Prelude.{
  ℕ, ◌-◌, ◌≤◌, ◌<◌, ◌≡◌, refl, sym, ap, ◌∙◌, subst, ◌↔◌, inl, inr, true, List, [], ◌∷◌, map, arith,
  power_positive, All, Any, ok,
}
use kube_vip_cloud_provider.Netip.{
  Addr, Zone, Prefix, without_zone, z4, z6noz, space, bit_len, prefix_base, prefix_last,
}
use kube_vip_cloud_provider.Netip.Equality.{zone_eq_refl}
use kube_vip_cloud_provider.Netipx.{
  InPrefix, IsPrefix, InRange, Addition, of_addr, of_prefix, of_range, added_all, Adds, PrefixLaws,
  added_ranges,
}
use kube_vip_cloud_provider.Netipx.Model.{
  model, Builder, Span, spans, spans_from, span_of_prefix, is_span, span_is_valid, in_spans,
  intervals, to_span, split_intervals, prefixes_of,
}
use kube_vip_cloud_provider.Netipx.Model.Laws.{in_spans_iff, All-append, intervals-IsNormal}
use kube_vip_cloud_provider.Netipx.Model.Adding.{in_family, Any-left, Any-right}
use kube_vip_cloud_provider.Netipx.Model.Ranges.{contains_added, of_family, Any-either}
use kube_vip_cloud_provider.Netipx.Model.Prefixes.{
  split_intervals_iff, split_intervals-IsPrefix, split_intervals_zone,
}

abbrev span_of : Addition model → Span
span_of (of_addr a) = spans_from (without_zone a) (without_zone a)
span_of (of_prefix p) = span_of_prefix p
span_of (of_range r) = r

as_ranges :
    (xs : List (Addition model)) (b : Builder)
    → added_all model xs b ≡ added_ranges model (map span_of xs) b
as_ranges [] b = refl
as_ranges (of_addr a ∷ xs) b = as_ranges xs (model.add b a)
as_ranges (of_prefix p ∷ xs) b = as_ranges xs (model.add_prefix b p)
as_ranges (of_range r ∷ xs) b = as_ranges xs (model.add_range b r)

same_addr : (a x : Addr) → a.zone ≡ x.zone → a.value ≡ x.value → a ≡ x
same_addr a x e f = cc

Adds-iff : (a : Addr) (x : Addition model) → InRange model a (span_of x) ↔ Adds model a x
Adds-iff a (of_addr x) = (
  λ (zone, low, high). same_addr a (without_zone x) zone (omega arith),
  λ e. let v = ap (λ y. y.value) e in (ap (λ y. y.zone) e, omega arith, omega arith),
)
Adds-iff a (of_prefix p) = (λ h. h, λ h. h)
Adds-iff a (of_range r) = (λ h. h, λ h. h)

Any-Adds_iff :
    (a : Addr) (xs : List (Addition model))
    → Any (InRange model a) (map span_of xs) ↔ Any (Adds model a) xs
Any-Adds_iff a [] = (λ h. h, λ h. h)
Any-Adds_iff a (x ∷ xs) = (
  λ h. elim h [ inl here ↦ inl ((Adds-iff a x).0 here) | inr m ↦ inr ((Any-Adds_iff a xs).0 m) ],
  λ h. elim h [ inl here ↦ inl ((Adds-iff a x).1 here) | inr m ↦ inr ((Any-Adds_iff a xs).1 m) ],
)

built_contains :
    (xs : List (Addition model)) (s : List Span)
    → model.ip_set (added_all model xs model.new_builder) ≡ ok s
    → (a : Addr) → (in_spans a (spans s) ≡ true) ↔ Any (Adds model a) xs
built_contains xs s e a =
    let ranges =
      contains_added (map span_of xs) s (ap model.ip_set (sym (as_ranges xs model.new_builder)) ∙ e)
        a in
    let meant = Any-Adds_iff a xs in (λ h. meant.0 (ranges.0 h), λ h. ranges.1 (meant.1 h))

-- What holds of an address with the zone that it has.
of_zone :
    (P : Addr → Type 0) (z : Zone) (a : Addr)
    → a.zone ≡ z
    → P (record { value = a.value; zone = z })
    → P a
of_zone P z a e h = subst (λ w. P (record { value = a.value; zone = w })) (sym e) h

to_zone :
    (P : Addr → Type 0) (z : Zone) (a : Addr)
    → a.zone ≡ z
    → P a
    → P (record { value = a.value; zone = z })
to_zone P z a e h = subst (λ w. P (record { value = a.value; zone = w })) e h

family_iff :
    (z : Zone) (a : Addr) (ss : List Span)
    → Any (InRange model a) (map (to_span z) (intervals z ss))
      ↔ Any (InPrefix model a) (split_intervals z (intervals z ss))
family_iff z a ss = (
  λ h.
      let (e, c) = of_family z a (intervals z ss) h in
      of_zone (λ x. Any (InPrefix model x) (split_intervals z (intervals z ss))) z a e
        ((split_intervals_iff z a.value (intervals z ss)).1 c),
  λ h.
      let e = split_intervals_zone z a (intervals z ss) h in
      let c =
        (split_intervals_iff z a.value (intervals z ss)).0
          (to_zone (λ x. Any (InPrefix model x) (split_intervals z (intervals z ss))) z a e h) in
      of_zone (λ x. Any (InRange model x) (map (to_span z) (intervals z ss))) z a e
        (in_family z a.value (intervals z ss) c),
)

prefixes_cover :
    (ss : List Span) (a : Addr)
    → (in_spans a (spans ss) ≡ true) ↔ Any (InPrefix model a) (prefixes_of ss)
unfolding prefixes_of
prefixes_cover ss a =
    let four = family_iff z4 a ss in
    let six = family_iff z6noz a ss in
    (
      λ h.
          elim (Any-either _ (map (to_span z4) (intervals z4 ss)) _
            ((in_spans_iff a (spans ss)).0 h)) [
              | inl m ↦ Any-left _ (split_intervals z4 (intervals z4 ss)) _ (four.0 m)
              | inr m ↦ Any-right _ (split_intervals z4 (intervals z4 ss)) _ (six.0 m)
            ],
      λ h.
          (in_spans_iff a (spans ss)).1
            (elim (Any-either _ (split_intervals z4 (intervals z4 ss)) _ h) [
              | inl m ↦ Any-left _ (map (to_span z4) (intervals z4 ss)) _ (four.1 m)
              | inr m ↦ Any-right _ (map (to_span z4) (intervals z4 ss)) _ (six.1 m)
            ]),
    )

prefixes_valid : (ss : List Span) → All (IsPrefix model) (prefixes_of ss)
unfolding prefixes_of
prefixes_valid ss =
    All-append _ (split_intervals z4 (intervals z4 ss)) _
      (split_intervals-IsPrefix z4 (inl refl) 0 (intervals z4 ss) (intervals-IsNormal z4 ss))
      (split_intervals-IsPrefix z6noz (inr refl) 0 (intervals z6noz ss)
        (intervals-IsNormal z6noz ss))

valid_span :
    (z : Zone) (low high : ℕ)
    → low ≤ high
    → high < space z
    → is_span z (to_span z (record { low = low; high = high })) ≡ true
unfolding is_span
valid_span z low high le lt = rw (zone_eq_refl z) (ground arith)

prefix-IsSpan :
    (p : Prefix) (z : Zone)
    → p.addr.zone ≡ z
    → IsPrefix model p
    → is_span z (span_of_prefix p) ≡ true
prefix-IsSpan p z e v =
    let some_ = power_positive (bit_len p.addr.zone - p.bits) in
    subst (λ w. is_span w (span_of_prefix p) ≡ true) e
      (valid_span p.addr.zone (prefix_base p) (prefix_last p) (omega arith) v.in_space)

valid_range : (p : Prefix) → IsPrefix model p → span_is_valid (span_of_prefix p) ≡ true
valid_range p v = elim v.no_zone [
  | inl e ↦ rw (prefix-IsSpan p z4 e v) refl
  | inr e ↦
      let h : is_span z6noz (span_of_prefix p) ≡ true = prefix-IsSpan p z6noz e v in ground arith
]

pub model-PrefixLaws : PrefixLaws model
model-PrefixLaws = record {
  built_contains = built_contains;
  prefixes_valid = prefixes_valid;
  prefixes_cover = prefixes_cover;
  valid_range_of_prefix = valid_range;
  from_range_of_prefix = λ p v. refl;
  to_range_of_prefix = λ p v. refl;
}
