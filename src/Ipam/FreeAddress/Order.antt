-- ===== src/Ipam/FreeAddress/Order.antt =====
-- Both orders of the search: the scan of one range, and the ranges of a set in the order of the
-- search, upwards as they come and downwards reversed.
use mathlib.Core.List.{reverse, reverse-cons}
use kube_vip_cloud_provider.Prelude.{
  ◌∙◌, ◌≡◌, refl, ap, subst, sym, inl, inr, Bool, true, false, arith, Bool-cases, ◌==◌, ltb, List,
  [], ◌∷◌, ◌++◌, All,
}
use kube_vip_cloud_provider.Netip.{Addr, Zone, next, prev}
use kube_vip_cloud_provider.Netipx.{IsSorted, Netipx, Before, InRange, IsRange}
use kube_vip_cloud_provider.Ipam.FreeAddress.{range_size, Scan, scan, usable, scan_range}
use kube_vip_cloud_provider.Ipam.FreeAddress.Loop.{at, UpSpec, DownSpec, scan-UpSpec, scan-DownSpec}
use kube_vip_cloud_provider.Ipam.FreeAddress.Search.{Ahead, IsAhead, RangeSpec}

abbrev pub After : Addr → Addr → Type 0
After a b = Before b a

-- The order in which the search meets addresses.
abbrev pub Precedes : Bool → Addr → Addr → Type 0
Precedes true = After
Precedes false = Before

module _ {A : Type 0} (P : A → Type 0) where
  All-append : (xs ys : List A) → All P xs → All P ys → All P (xs ++ ys)
  All-append [] ys h k = k
  All-append (x ∷ xs) ys h k = (h.0, All-append xs ys h.1 k)

  pub All-reverse : (xs : List A) → All P xs → All P (reverse xs)
  All-reverse [] h = tt
  All-reverse (x ∷ xs) h =
      subst (All P) (sym (reverse-cons x xs))
        (All-append (reverse xs) (x ∷ []) (All-reverse xs h.1) (h.0, tt))

pub All-map :
    {A : Type 0} {P Q : A → Type 0} → ((a : A) → P a → Q a) → (xs : List A) → All P xs → All Q xs
All-map f [] h = tt
All-map f (x ∷ xs) h = (f x h.0, All-map f xs h.1)

module _ (N : Netipx) (test : Addr → Bool) where
  -- An address of the family of `r` is given by its number.
  in_family :
      {b : Bool} (r : N.IPRange) (x : Addr)
      → InRange N x r
      → test x ≡ b
      → test (at (N.from r).zone x.value) ≡ b
  in_family {b} r x h t = subst (λ z. test (at z x.value) ≡ b) h.0 t

  out_of_family :
      {b : Bool} (r : N.IPRange) (x : Addr)
      → InRange N x r
      → test (at (N.from r).zone x.value) ≡ b
      → test x ≡ b
  out_of_family {b} r x h t = subst (λ z. test (at z x.value) ≡ b) (sym h.0) t

  up-RangeSpec :
      (r : N.IPRange) (s : Scan)
      → UpSpec test (N.from r).zone (N.from r).value (N.to r).value s
      → RangeSpec N test Before r s
  up-RangeSpec r s (inl (k, e, low, high, hit, before)) = inl (
    at z k,
    e,
    (refl, low, high),
    hit,
    λ x h t. elim (Bool-cases (ltb x.value k)) [
      | inl lt ↦ absurd (cc (in_family r x h t, before x.value h.1 (ground arith)))
      | inr ge ↦ elim (Bool-cases (x.value == k)) [
        | inl same ↦ inl (ground (arith, h.0))
        | inr ne ↦ inr (inr (sym h.0, ground arith))
      ]
    ],
  )
    where
      z : Zone
      z = (N.from r).zone
  up-RangeSpec r s (inr (e, none_)) = inr (e, λ x h. out_of_family r x h (none_ x.value h.1 h.2))

  down-RangeSpec :
      (r : N.IPRange) (s : Scan)
      → DownSpec test (N.from r).zone (N.from r).value (N.to r).value s
      → RangeSpec N test After r s
  down-RangeSpec r s (inl (k, e, low, high, hit, before)) = inl (
    at (N.from r).zone k,
    e,
    (refl, low, high),
    hit,
    λ x h t. elim (Bool-cases (ltb k x.value)) [
      | inl lt ↦ absurd (cc (in_family r x h t, before x.value (ground arith) h.2))
      | inr ge ↦ elim (Bool-cases (x.value == k)) [
        | inl same ↦ inl (ground (arith, h.0))
        | inr ne ↦ inr (inr (h.0, ground arith))
      ]
    ],
  )
  down-RangeSpec r s (inr (e, none_)) = inr (e, λ x h. out_of_family r x h (none_ x.value h.1 h.2))

module _ (N : Netipx) (in_use : N.IPSet) where
  to_lem : (r : N.IPRange) → IsRange N r → at (N.from r).zone (N.to r).value ≡ N.to r
  to_lem r v = ap (λ z. at z (N.to r).value) (sym v.one_family)

  pub scan_range-RangeSpec :
      (desc : Bool) (r : N.IPRange)
      → IsRange N r
      → RangeSpec N (usable N in_use) (Precedes desc) r (scan_range N desc in_use r)
  unfolding scan_range
  scan_range-RangeSpec true r v =
      down-RangeSpec N (usable N in_use) r (scan_range N true in_use r) (
        subst
          (λ a.
            DownSpec (usable N in_use) (N.from r).zone (N.from r).value (N.to r).value
              (scan (usable N in_use) prev (range_size N r) a (N.from r)))
          (to_lem r v) (scan-DownSpec (usable N in_use) (N.from r).zone _ _ v.in_order v.in_space))
  scan_range-RangeSpec false r v =
      up-RangeSpec N (usable N in_use) r (scan_range N false in_use r) (
        subst
          (λ a.
            UpSpec (usable N in_use) (N.from r).zone (N.from r).value (N.to r).value
              (scan (usable N in_use) next (range_size N r) (N.from r) a))
          (to_lem r v) (scan-UpSpec (usable N in_use) (N.from r).zone _ _ v.in_order v.in_space))

module _ (N : Netipx) where
  -- Ranges in order have their addresses in order.
  Before-Ahead :
      {r s : N.IPRange}
      → IsRange N r
      → IsRange N s
      → Before (N.to r) (N.from s)
      → Ahead N Before r s
  Before-Ahead v w (inl shorter) x y p q = inl (rw (p.0, q.0, ← v.one_family) shorter)
  Before-Ahead v w (inr (same, lt)) x y p q =
      inr (p.0 ∙ sym v.one_family ∙ same ∙ sym q.0, omega arith)

  Ahead-All :
      (r : N.IPRange) (rs : List N.IPRange)
      → IsRange N r
      → All (IsRange N) rs
      → All (λ s. Before (N.to r) (N.from s)) rs
      → All (Ahead N Before r) rs
  Ahead-All r [] v vs h = tt
  Ahead-All r (s ∷ rs) v vs h = (Before-Ahead v vs.0 h.0, Ahead-All r rs v vs.1 h.1)

  pub IsSorted-IsAhead :
      (rs : List N.IPRange) → All (IsRange N) rs → IsSorted N rs → IsAhead N Before rs
  IsSorted-IsAhead [] vs h = tt
  IsSorted-IsAhead (r ∷ rs) vs h = (Ahead-All r rs vs.0 vs.1 h.0, IsSorted-IsAhead rs vs.1 h.1)

  IsAhead-append_one :
      (rs : List N.IPRange) (r : N.IPRange)
      → IsAhead N After rs
      → All (Ahead N Before r) rs
      → IsAhead N After (rs ++ r ∷ [])
  IsAhead-append_one [] r h k = (tt, tt)
  IsAhead-append_one (s ∷ rs) r h k = (
    All-append (Ahead N After s) rs (r ∷ []) h.0 ((λ x y p q. k.0 y x q p), tt),
    IsAhead-append_one rs r h.1 k.1,
  )

  pub IsAhead-reverse : (rs : List N.IPRange) → IsAhead N Before rs → IsAhead N After (reverse rs)
  IsAhead-reverse [] h = tt
  IsAhead-reverse (r ∷ rs) h = subst (IsAhead N After) (sym (reverse-cons r rs)) (
      IsAhead-append_one (reverse rs) r (IsAhead-reverse rs h.1)
        (All-reverse (Ahead N Before r) rs h.0))
