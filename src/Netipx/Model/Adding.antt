-- ===== src/Netipx/Model/Adding.antt =====
-- The addresses that are added to a builder of the implementation.
use kube_vip_cloud_provider.Prelude.{
  ℕ, ◌≤◌, ◌≡◌, refl, sym, subst, ◌⊎◌, inl, inr, true, false, List, [], ◌∷◌, ◌++◌, map, arith,
  Bool-cases, All, Any, foreign, ok, err,
}
use kube_vip_cloud_provider.Netip.{Addr, Zone, without_zone, z4, z6noz}
use kube_vip_cloud_provider.Netip.Equality.{eq_of_zone_eq}
use kube_vip_cloud_provider.Netipx.{InRange, AddLaws, added}
use kube_vip_cloud_provider.Netipx.Model.{
  model, Span, Builder, intervals, to_span, spans, spans_from, in_spans, is_span,
}
use kube_vip_cloud_provider.Netipx.Model.Intervals.{Interval, Covers, Covers-insert}
use kube_vip_cloud_provider.Netipx.Model.Laws.{in_spans_iff}

-- The number is in the span, which is a range of the family.
abbrev pub Sits : Zone → ℕ → Span → Type 0
Sits z x s = (is_span z s ≡ true) × (s.first.value ≤ x) × (x ≤ s.last.value)

pub intervals-Covers :
    (z : Zone) (x : ℕ) (ss : List Span) → Any (Sits z x) ss → Any (Covers x) (intervals z ss)
unfolding intervals
intervals-Covers z x [] h = absurd h
intervals-Covers z x (s ∷ ss) h = elim (Bool-cases (is_span z s)) [
  | inl good ↦ rw good (
      Covers-insert x s.first.value s.last.value (intervals z ss) (elim h [
        | inl (_, low, high) ↦ inl (low, high)
        | inr there ↦ inr (intervals-Covers z x ss there)
      ]))
  | inr bad ↦ rw bad (elim h [
    | inl here ↦ absurd (cc (let q : is_span z s ≡ true = here.0 in q))
    | inr there ↦ intervals-Covers z x ss there
  ])
]

pub in_family :
    (z : Zone) (x : ℕ) (is : List Interval)
    → Any (Covers x) is
    → Any (InRange model (record { value = x; zone = z })) (map (to_span z) is)
in_family z x [] h = absurd h
in_family z x (i ∷ is) (inl (low, high)) = inl (refl, low, high)
in_family z x (i ∷ is) (inr there) = inr (in_family z x is there)

module _ {A : Type 0} (P : A → Type 0) where
  pub Any-left : (xs ys : List A) → Any P xs → Any P (xs ++ ys)
  Any-left [] ys h = absurd h
  Any-left (x ∷ xs) ys (inl h) = inl h
  Any-left (x ∷ xs) ys (inr h) = inr (Any-left xs ys h)

  pub Any-right : (xs ys : List A) → Any P ys → Any P (xs ++ ys)
  Any-right [] ys h = h
  Any-right (x ∷ xs) ys h = inr (Any-right xs ys h)

-- An address that is valid and has no zone.
abbrev Addable : Addr → Type 0
Addable a = (is_span z4 (spans_from a a) ≡ true) ⊎ (is_span z6noz (spans_from a a) ≡ true)

family_of : (z : Zone) (a : Addr) → is_span z (spans_from a a) ≡ true → a.zone ≡ z
unfolding is_span
family_of z a h = eq_of_zone_eq a.zone z (ground arith)

contained :
    (a : Addr) (ss : List Span)
    → Any (λ s. s ≡ spans_from a a) ss
    → Addable a
    → in_spans a (spans ss) ≡ true
contained a ss h good = (in_spans_iff a (spans ss)).1 (elim good [
  | inl four ↦ Any-left _ (map (to_span z4) (intervals z4 ss)) _ (at_family z4 four)
  | inr six ↦ Any-right _ (map (to_span z4) (intervals z4 ss)) _ (at_family z6noz six)
])
  where
    sits :
        (z : Zone) (ss : List Span)
        → is_span z (spans_from a a) ≡ true
        → Any (λ s. s ≡ spans_from a a) ss
        → Any (Sits z a.value) ss
    sits z [] e h = absurd h
    sits z (s ∷ ss) e (inl h) = inl (rw h (e, omega arith, omega arith))
    sits z (s ∷ ss) e (inr h) = inr (sits z ss e h)

    at_family :
        (z : Zone)
        → is_span z (spans_from a a) ≡ true
        → Any (InRange model a) (map (to_span z) (intervals z ss))
    at_family z e =
        subst
          (λ w.
            Any (InRange model (record { value = a.value; zone = w }))
              (map (to_span z) (intervals z ss)))
          (sym (family_of z a e))
          (in_family z a.value (intervals z ss) (intervals-Covers z a.value ss (sits z ss e h)))

-- The span of an address that is added.
abbrev single : Addr → Span
single a = spans_from (without_zone a) (without_zone a)

-- The spans of a builder that has not failed, after one more address.
add_cases :
    (a : Addr) (b : Builder)
    → (Addable (without_zone a) × (model.add b a ≡ record b { spans = single a ∷ b.spans }))
      ⊎ (model.add b a ≡ record b { failed = true })
add_cases a b = elim (Bool-cases (is_span z4 (single a))) [
  | inl four ↦ inl (inl four, rw four refl)
  | inr other ↦ elim (Bool-cases (is_span z6noz (single a))) [
    | inl six ↦ inl (inr six, rw (other, six) refl)
    | inr neither ↦ inr (rw (other, neither) refl)
  ]
]

stays_failed :
    (addrs : List Addr) (b : Builder) → b.failed ≡ true → (added model addrs b).failed ≡ true
stays_failed [] b h = h
stays_failed (a ∷ addrs) b h = elim (add_cases a b) [
  | inl (good, e) ↦ stays_failed addrs (model.add b a) (rw e h)
  | inr e ↦ stays_failed addrs (model.add b a) (rw e refl)
]

keeps_span :
    (s : Span) (addrs : List Addr) (b : Builder)
    → Any (λ t. t ≡ s) b.spans
    → Any (λ t. t ≡ s) (added model addrs b).spans
keeps_span s [] b h = h
keeps_span s (a ∷ addrs) b h = elim (add_cases a b) [
  | inl (good, e) ↦ keeps_span s addrs (model.add b a) (rw e (inr h))
  | inr e ↦ keeps_span s addrs (model.add b a) (rw e h)
]

All-added :
    (addrs : List Addr) (b : Builder)
    → (added model addrs b).failed ≡ false
    → All
        (λ a. Addable (without_zone a) × Any (λ s. s ≡ single a) (added model addrs b).spans)
        addrs
All-added [] b h = tt
All-added (a ∷ addrs) b h = elim (add_cases a b) [
  | inl (good, e) ↦ (
    (good, keeps_span (single a) addrs (model.add b a) (rw e (inl refl))),
    All-added addrs (model.add b a) h,
  )
  | inr e ↦ absurd (
      cc (
        let q : (added model addrs (model.add b a)).failed ≡ true =
          stays_failed addrs (model.add b a) (rw e refl) in
        q))
]

All-contained :
    (ss : List Span) (addrs : List Addr)
    → All (λ a. Addable (without_zone a) × Any (λ s. s ≡ single a) ss) addrs
    → All (λ a. in_spans (without_zone a) (spans ss) ≡ true) addrs
All-contained ss [] h = tt
All-contained ss (a ∷ addrs) h =
    (contained (without_zone a) ss h.0.1 h.0.0, All-contained ss addrs h.1)

built :
    (addrs : List Addr) (b : Builder) (s : List Span)
    → model.ip_set b ≡ ok s
    → All (λ a. Addable (without_zone a) × Any (λ t. t ≡ single a) b.spans) addrs
    → All (λ a. in_spans (without_zone a) (spans s) ≡ true) addrs
built addrs b s e h = elim (Bool-cases b.failed) [
  | inl f ↦ absurd (let q : err (foreign "netipx") ≡ ok s = rw f at e in cc)
  | inr f ↦
      let q : ok b.spans ≡ ok s = rw f at e in
      let r : b.spans ≡ s = cc in
      subst (λ t. All (λ a. in_spans (without_zone a) (spans t) ≡ true) addrs) r
        (All-contained b.spans addrs h)
]

pub not_failed : (b : Builder) (s : List Span) → model.ip_set b ≡ ok s → b.failed ≡ false
not_failed b s e = elim (Bool-cases b.failed) [
  | inl f ↦ absurd (let q : err (foreign "netipx") ≡ ok s = rw f at e in cc)
  | inr f ↦ f
]

pub model-AddLaws : AddLaws model
model-AddLaws = record {
  add_contains = λ addrs s e.
      built addrs (added model addrs model.new_builder) s e
        (All-added addrs model.new_builder (not_failed _ s e));
}
