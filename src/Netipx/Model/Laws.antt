-- ===== src/Netipx/Model/Laws.antt =====
-- Contains and Ranges of the implementation.
use kube_vip_cloud_provider.Netip.Equality.{zone_eq_refl, eq_of_zone_eq}
use kube_vip_cloud_provider.Netipx.Model.Intervals.{insert-IsNormal, IsNormal, Interval}
use kube_vip_cloud_provider.Prelude.{
  ℕ, ◌+◌, ◌≤◌, ◌<◌, ◌≡◌, refl, ◌↔◌, ◌⊎◌, inl, inr, true, List, [], ◌∷◌, ◌++◌, map, arith,
  Bool-cases, All, Any,
}
use kube_vip_cloud_provider.Netip.{Addr, Zone, z4, z6noz, space}
use kube_vip_cloud_provider.Netipx.{InRange, IsRange, IsSorted, SetLaws, Before}
use kube_vip_cloud_provider.Netipx.Model.{
  model, Span, intervals, to_span, spans, in_span, in_spans, is_span,
}

span_bounds :
    (z : Zone) (s : Span)
    → is_span z s ≡ true
    → (s.first.value ≤ s.last.value) × (s.last.value < space z)
unfolding is_span
span_bounds z s h = (ground arith, ground arith)

pub intervals-IsNormal : (z : Zone) (ss : List Span) → IsNormal (space z) 0 (intervals z ss)
unfolding intervals
intervals-IsNormal z [] = tt
intervals-IsNormal z (s ∷ ss) = elim (Bool-cases (is_span z s)) [
  | inl good ↦
      let b = span_bounds z s good in
      rw good (
        insert-IsNormal (space z) 0 s.first.value s.last.value (intervals z ss) (omega arith) b.0
          b.1 (intervals-IsNormal z ss))
  | inr bad ↦ rw bad (intervals-IsNormal z ss)
]

in_span_iff : (a : Addr) (s : Span) → (in_span a s ≡ true) ↔ InRange model a s
in_span_iff a s = (
  λ h. (eq_of_zone_eq a.zone s.first.zone (ground arith), ground arith, ground arith),
  λ h. ground (arith, zone_eq_refl a.zone),
)

pub in_spans_iff : (a : Addr) (ss : List Span) → (in_spans a ss ≡ true) ↔ Any (InRange model a) ss
in_spans_iff a [] = (λ h. cc, λ h. absurd h)
in_spans_iff a (s ∷ ss) = (
  λ h. elim (Bool-cases (in_span a s)) [
    | inl here ↦ inl ((in_span_iff a s).0 here)
    | inr not_here ↦ inr ((in_spans_iff a ss).0 (ground arith))
  ],
  λ h. elim h [
    | inl here ↦ rw ((in_span_iff a s).1 here)
    | inr there ↦ ground (arith, (in_spans_iff a ss).1 there)
  ],
)

module _ {A : Type 0} (P : A → Type 0) where
  pub All-append : (xs ys : List A) → All P xs → All P ys → All P (xs ++ ys)
  All-append [] ys h k = k
  All-append (x ∷ xs) ys h k = (h.0, All-append xs ys h.1 k)

module _ (z : Zone) (plain : (z ≡ z4) ⊎ (z ≡ z6noz)) where
  valid_intervals :
      (least : ℕ) (is : List Interval)
      → IsNormal (space z) least is
      → All (IsRange model) (map (to_span z) is)
  valid_intervals least [] n = tt
  valid_intervals least (i ∷ is) n = (
    record { no_zone = plain; one_family = refl; in_order = n.1; in_space = n.2 },
    valid_intervals (i.high + 2) is n.3,
  )

module _ (z : Zone) where
  ahead_of_rest :
      (h least : ℕ) (is : List Interval)
      → h < least
      → IsNormal (space z) least is
      → All (λ s. Before (record { value = h; zone = z }) s.first) (map (to_span z) is)
  ahead_of_rest h least [] lt n = tt
  ahead_of_rest h least (i ∷ is) lt n =
      (inr (refl, omega arith), ahead_of_rest h (i.high + 2) is (omega arith) n.3)

  IsSorted-intervals :
      (least : ℕ) (is : List Interval)
      → IsNormal (space z) least is
      → IsSorted model (map (to_span z) is)
  IsSorted-intervals least [] n = tt
  IsSorted-intervals least (i ∷ is) n = (
    ahead_of_rest i.high (i.high + 2) is (omega arith) n.3,
    IsSorted-intervals (i.high + 2) is n.3,
  )

All-after_v4 :
    (a : Addr) (is : List Interval)
    → a.zone ≡ z4
    → All (λ s. Before a s.first) (map (to_span z6noz) is)
All-after_v4 a [] e = tt
All-after_v4 a (i ∷ is) e = (inl (rw e (omega arith)), All-after_v4 a is e)

families-IsSorted :
    (is js : List Interval)
    → IsSorted model (map (to_span z4) is)
    → IsSorted model (map (to_span z6noz) js)
    → IsSorted model (map (to_span z4) is ++ map (to_span z6noz) js)
families-IsSorted [] js h k = k
families-IsSorted (i ∷ is) js h k = (
  All-append _ (map (to_span z4) is) (map (to_span z6noz) js) h.0 (All-after_v4 _ js refl),
  families-IsSorted is js h.1 k,
)

pub model-SetLaws : SetLaws model
model-SetLaws = record {
  contains_iff = λ s a. in_spans_iff a (spans s);
  ranges_valid = λ s.
      All-append (IsRange model) (map (to_span z4) (intervals z4 s))
        (map (to_span z6noz) (intervals z6noz s))
        (valid_intervals z4 (inl refl) 0 (intervals z4 s) (intervals-IsNormal z4 s))
        (valid_intervals z6noz (inr refl) 0 (intervals z6noz s) (intervals-IsNormal z6noz s));
  ranges_sorted = λ s.
      families-IsSorted (intervals z4 s) (intervals z6noz s)
        (IsSorted-intervals z4 0 (intervals z4 s) (intervals-IsNormal z4 s))
        (IsSorted-intervals z6noz 0 (intervals z6noz s) (intervals-IsNormal z6noz s));
}
