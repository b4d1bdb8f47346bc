-- ===== src/Netipx/Model/Ranges.antt =====
-- The ranges that are added to a builder of the implementation.
use kube_vip_cloud_provider.Prelude.{
  ℕ, ◌<◌, ◌≡◌, refl, sym, ◌∙◌, subst, ◌↔◌, ◌⊎◌, inl, inr, true, false, List, [], ◌∷◌, ◌++◌, map,
  arith, Bool-cases, All, Any, foreign, err, ok,
}
use kube_vip_cloud_provider.Netip.{space, zone_eq, Addr, Zone, z4, z6noz}
use kube_vip_cloud_provider.Netip.Equality.{zone_eq_refl, eq_of_zone_eq}
use kube_vip_cloud_provider.Netipx.{IsRange, RangeLaws, InRange, added_ranges}
use kube_vip_cloud_provider.Netipx.Model.{
  model, Span, Builder, intervals, to_span, spans, in_spans, is_span,
}
use kube_vip_cloud_provider.Netipx.Model.Intervals.{Interval, Covers, insert-Covers}
use kube_vip_cloud_provider.Netipx.Model.Laws.{in_spans_iff}
use kube_vip_cloud_provider.Netipx.Model.Adding.{
  not_failed, Sits, intervals-Covers, in_family, Any-left, Any-right,
}

Covers-intervals :
    (z : Zone) (x : ℕ) (ss : List Span) → Any (Covers x) (intervals z ss) → Any (Sits z x) ss
unfolding intervals
Covers-intervals z x [] h = h
Covers-intervals z x (s ∷ ss) h = elim (Bool-cases (is_span z s)) [
  | inl good ↦ elim (insert-Covers x s.first.value s.last.value (intervals z ss) (rw good at h)) [
    | inl (low, high) ↦ inl (good, low, high)
    | inr there ↦ inr (Covers-intervals z x ss there)
  ]
  | inr bad ↦ inr (Covers-intervals z x ss (rw bad at h))
]

pub of_family :
    (z : Zone) (a : Addr) (is : List Interval)
    → Any (InRange model a) (map (to_span z) is)
    → (a.zone ≡ z) × Any (Covers a.value) is
of_family z a [] h = absurd h
of_family z a (i ∷ is) (inl (same, low, high)) = (same, inl (low, high))
of_family z a (i ∷ is) (inr h) = let (same, there) = of_family z a is h in (same, inr there)

module _ {A : Type 0} (P : A → Type 0) where
  pub Any-either : (xs ys : List A) → Any P (xs ++ ys) → Any P xs ⊎ Any P ys
  Any-either [] ys h = inr h
  Any-either (x ∷ xs) ys (inl h) = inl (inl h)
  Any-either (x ∷ xs) ys (inr h) = elim (Any-either xs ys h) [
    | inl there ↦ inl (inr there)
    | inr other ↦ inr other
  ]

span_zones : (z : Zone) (s : Span) → is_span z s ≡ true → s.first.zone ≡ z
unfolding is_span
span_zones z s h = eq_of_zone_eq s.first.zone z (ground arith)

-- A range of one of the two families.
abbrev IsSpan : Span → Type 0
IsSpan s = (is_span z4 s ≡ true) ⊎ (is_span z6noz s ≡ true)

Sits-InRange :
    (z : Zone) (a : Addr) (ss : List Span)
    → a.zone ≡ z
    → Any (Sits z a.value) ss
    → Any (InRange model a) ss
Sits-InRange z a [] e h = absurd h
Sits-InRange z a (s ∷ ss) e (inl (good, low, high)) = inl (e ∙ sym (span_zones z s good), low, high)
Sits-InRange z a (s ∷ ss) e (inr h) = inr (Sits-InRange z a ss e h)

InRange-Sits :
    (a : Addr) (ss : List Span)
    → All IsSpan ss
    → Any (InRange model a) ss
    → ((a.zone ≡ z4) × Any (Sits z4 a.value) ss) ⊎ ((a.zone ≡ z6noz) × Any (Sits z6noz a.value) ss)
InRange-Sits a [] valid h = absurd h
InRange-Sits a (s ∷ ss) valid (inl (same, low, high)) = elim valid.0 [
  | inl four ↦ inl (same ∙ span_zones z4 s four, inl (four, low, high))
  | inr six ↦ inr (same ∙ span_zones z6noz s six, inl (six, low, high))
]
InRange-Sits a (s ∷ ss) valid (inr h) = elim (InRange-Sits a ss valid.1 h) [
  | inl (same, there) ↦ inl (same, inr there)
  | inr (same, there) ↦ inr (same, inr there)
]

at_zone :
    (z : Zone) (a : Addr) (ss : List Span)
    → a.zone ≡ z
    → Any (Sits z a.value) ss
    → Any (InRange model a) (map (to_span z) (intervals z ss))
at_zone z a ss e h =
    subst
      (λ w.
        Any (InRange model (record { value = a.value; zone = w }))
          (map (to_span z) (intervals z ss)))
      (sym e) (in_family z a.value (intervals z ss) (intervals-Covers z a.value ss h))

spans_iff :
    (a : Addr) (ss : List Span)
    → All IsSpan ss
    → (in_spans a (spans ss) ≡ true) ↔ Any (InRange model a) ss
spans_iff a ss valid = (
  λ h.
      elim (Any-either _ (map (to_span z4) (intervals z4 ss)) _ ((in_spans_iff a (spans ss)).0 h)) [
        | inl four ↦
            let (e, c) = of_family z4 a (intervals z4 ss) four in
            Sits-InRange z4 a ss e (Covers-intervals z4 a.value ss c)
        | inr six ↦
            let (e, c) = of_family z6noz a (intervals z6noz ss) six in
            Sits-InRange z6noz a ss e (Covers-intervals z6noz a.value ss c)
      ],
  λ h. (in_spans_iff a (spans ss)).1 (elim (InRange-Sits a ss valid h) [
    | inl (e, four) ↦ Any-left _ (map (to_span z4) (intervals z4 ss)) _ (at_zone z4 a ss e four)
    | inr (e, six) ↦ Any-right _ (map (to_span z4) (intervals z4 ss)) _ (at_zone z6noz a ss e six)
  ]),
)

add_range_cases :
    (s : Span) (b : Builder)
    → (IsSpan s × (model.add_range b s ≡ record b { spans = s ∷ b.spans }))
      ⊎ (model.add_range b s ≡ record b { failed = true })
add_range_cases s b = elim (Bool-cases (is_span z4 s)) [
  | inl four ↦ inl (inl four, rw four refl)
  | inr other ↦ elim (Bool-cases (is_span z6noz s)) [
    | inl six ↦ inl (inr six, rw (other, six) refl)
    | inr neither ↦ inr (rw (other, neither) refl)
  ]
]

failed_for_good :
    (rs : List Span) (b : Builder) → b.failed ≡ true → (added_ranges model rs b).failed ≡ true
failed_for_good [] b h = h
failed_for_good (r ∷ rs) b h = elim (add_range_cases r b) [
  | inl (good, e) ↦ failed_for_good rs (model.add_range b r) (rw e h)
  | inr e ↦ failed_for_good rs (model.add_range b r) (rw e refl)
]

-- A builder that has not failed holds what it held and the added ranges, and all are valid.
holds :
    (a : Addr) (rs : List Span) (b : Builder)
    → (added_ranges model rs b).failed ≡ false
    → All IsSpan b.spans
    → All IsSpan (added_ranges model rs b).spans
      × (Any (InRange model a) (added_ranges model rs b).spans
          ↔ (Any (InRange model a) rs ⊎ Any (InRange model a) b.spans))
holds a [] b h valid = (valid, ((λ m. inr m), (λ m. elim m [ inl x ↦ absurd x | inr y ↦ y ])))
holds a (r ∷ rs) b h valid = elim (add_range_cases r b) [
  | inr e ↦ absurd (
      cc (
        let q : (added_ranges model rs (model.add_range b r)).failed ≡ true =
          failed_for_good rs (model.add_range b r) (rw e refl) in
        q))
  | inl (good, e) ↦
      let (all, same) = holds a rs (model.add_range b r) h (rw e (good, valid)) in
      (
        all,
        (
          λ m. elim (same.0 m) [
            | inl new ↦ inl (inr new)
            | inr old ↦ elim (let o : Any (InRange model a) (r ∷ b.spans) = rw e at old in o) [
              | inl here ↦ inl (inl here)
              | inr before ↦ inr before
            ]
          ],
          λ m. same.1 (elim m [
            | inl here ↦ elim here [ inl now ↦ inr (rw e (inl now)) | inr later ↦ inl later ]
            | inr before ↦ inr (rw e (inr before))
          ]),
        ),
      )
]

built_spans : (b : Builder) (s : List Span) → model.ip_set b ≡ ok s → b.spans ≡ s
built_spans b s e = elim (Bool-cases b.failed) [
  | inl f ↦ absurd (let q : err (foreign "netipx") ≡ ok s = rw f at e in cc)
  | inr f ↦ let q : ok b.spans ≡ ok s = rw f at e in cc
]

pub contains_added :
    (rs : List Span) (s : List Span)
    → model.ip_set (added_ranges model rs model.new_builder) ≡ ok s
    → (a : Addr) → (in_spans a (spans s) ≡ true) ↔ Any (InRange model a) rs
contains_added rs s e a =
    let b = added_ranges model rs model.new_builder in
    let (valid, same) = holds a rs model.new_builder (not_failed b s e) tt in
    let here = spans_iff a b.spans valid in
    let eq : b.spans ≡ s = built_spans b s e in
    (
      λ h. elim (same.0 (here.0 (rw eq h))) [ inl new ↦ new | inr old ↦ absurd old ],
      λ m. (let k : in_spans a (spans b.spans) ≡ true = here.1 (same.1 (inl m)) in rw eq at k),
    )

range_span : (z : Zone) (r : Span) → r.first.zone ≡ z → IsRange model r → is_span z r ≡ true
unfolding is_span
range_span z r e v =
    let first : zone_eq r.first.zone z ≡ true = rw e (zone_eq_refl z) in
    let last : zone_eq r.last.zone z ≡ true = rw (v.one_family, e) (zone_eq_refl z) in
    let bound : r.last.value < space z = subst (λ w. r.last.value < space w) e v.in_space in
    let order = v.in_order in ground arith

IsRange-IsSpan : (r : Span) → IsRange model r → IsSpan r
IsRange-IsSpan r v = elim v.no_zone [
  | inl e ↦ inl (range_span z4 r e v)
  | inr e ↦ inr (range_span z6noz r e v)
]

never_fails :
    (rs : List Span) (b : Builder)
    → All (IsRange model) rs
    → b.failed ≡ false
    → (added_ranges model rs b).failed ≡ false
never_fails [] b vs h = h
never_fails (r ∷ rs) b (v, vs) h =
    never_fails rs (model.add_range b r) vs (elim (IsRange-IsSpan r v) [
      | inl four ↦ rw four h
      | inr six ↦ elim (Bool-cases (is_span z4 r)) [
        | inl four ↦ rw four h
        | inr other ↦ rw (other, six) h
      ]
    ])

valid_builds :
    (rs : List Span)
    → All (IsRange model) rs
    → (s : List Span) × (model.ip_set (added_ranges model rs model.new_builder) ≡ ok s)
valid_builds rs vs =
    let b = added_ranges model rs model.new_builder in
    let whole : b.failed ≡ false = never_fails rs model.new_builder vs refl in
    (b.spans, rw whole refl)

pub model-RangeLaws : RangeLaws model
model-RangeLaws = record {
  from_range_from = λ a b. refl;
  to_range_from = λ a b. refl;
  add_range_contains = contains_added;
  valid_builds = valid_builds;
}
