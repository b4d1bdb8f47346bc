-- ===== src/Ipam/FreeAddress/Extreme.antt =====
-- What FindFreeAddress of pkg/ipam/ipam.go returns, stated on the set of the pool's addresses.
use kube_vip_cloud_provider.Ipam.FreeAddress.Loop.{at}
use kube_vip_cloud_provider.Ipam.FreeAddress.Order.{
  IsAhead-reverse, All-reverse, scan_range-RangeSpec, All-map, Precedes, IsSorted-IsAhead, After,
}
use kube_vip_cloud_provider.Ipam.FreeAddress.{
  descending, scan_range, usable, find_free_address, search_ranges,
}
use kube_vip_cloud_provider.Ipam.FreeAddress.Search.{search-ListSpec, IsAhead, ListSpec, RangeSpec}
use mathlib.Core.List.{reverse, reverse-cons}
use kube_vip_cloud_provider.Prelude.{
  if◌then◌else◌, Result, All, ℕ, ◌%◌, ◌≡◌, ◌≢◌, refl, subst, sym, ◌⊎◌, ◌↔◌, inl, inr, Bool, true,
  false, arith, List, [], ◌∷◌, ◌++◌, Any, Option, ok, err, errorf,
}
use kube_vip_cloud_provider.Netip.{Addr, Zone, z0, z4, z6noz, z6}
use kube_vip_cloud_provider.Netipx.{Before, Netipx, InRange, SetLaws}
use kube_vip_cloud_provider.Config.{KubevipLbConfig}

-- An address that the network reserves: the last byte of an IPv4 address is 0 or 255.
abbrev pub IsOrdinary : Addr → Type 0
IsOrdinary x = x.zone ≡ z4 → (x.value % 256 ≢ 0) × (x.value % 256 ≢ 255)

module _ (N : Netipx) where
  -- In the pool, not in use, and neither a network nor a broadcast address.
  abbrev pub IsFree : N.IPSet → N.IPSet → Addr → Type 0
  IsFree pool in_use x = (N.contains pool x ≡ true) × (N.contains in_use x ≡ false) × IsOrdinary x

  usable-at :
      (in_use : N.IPSet) (n : ℕ) (z : Zone)
      → (usable N in_use (at z n) ≡ true)
        ↔ ((N.contains in_use (at z n) ≡ false) × IsOrdinary (at z n))
  unfolding usable
  usable-at in_use n z0 = (λ h. (ground arith, λ e. absurd (cc e)), λ h. ground arith)
  usable-at in_use n z4 =
      (λ h. (ground arith, λ e. (ground arith, ground arith)), λ h. ground (arith, h.1 refl))
  usable-at in_use n z6noz = (λ h. (ground arith, λ e. absurd (cc e)), λ h. ground arith)
  usable-at in_use n (z6 s) = (λ h. (ground arith, λ e. absurd (cc e)), λ h. ground arith)

  pub usable_iff :
      (in_use : N.IPSet) (x : Addr)
      → (usable N in_use x ≡ true) ↔ ((N.contains in_use x ≡ false) × IsOrdinary x)
  usable_iff in_use x = usable-at in_use x.value x.zone

module _ {A : Type 0} (P : A → Type 0) where
  Any-append : (xs ys : List A) → Any P (xs ++ ys) ↔ (Any P xs ⊎ Any P ys)
  Any-append [] ys = (λ h. inr h, λ h. elim h [ inl e ↦ absurd e | inr q ↦ q ])
  Any-append (x ∷ xs) ys = (
    λ h. elim h [
      | inl p ↦ inl (inl p)
      | inr q ↦ elim ((Any-append xs ys).0 q) [ inl a ↦ inl (inr a) | inr b ↦ inr b ]
    ],
    λ h. elim h [
      | inl a ↦ elim a [ inl p ↦ inl p | inr q ↦ inr ((Any-append xs ys).1 (inl q)) ]
      | inr b ↦ inr ((Any-append xs ys).1 (inr b))
    ],
  )

  Any-reverse : (xs : List A) → Any P (reverse xs) ↔ Any P xs
  Any-reverse [] = (λ h. h, λ h. h)
  Any-reverse (x ∷ xs) = (
    λ h. elim ((Any-append (reverse xs) (x ∷ [])).0 (subst (Any P) (reverse-cons x xs) h)) [
      | inl a ↦ inr ((Any-reverse xs).0 a)
      | inr b ↦ elim b [ inl p ↦ inl p | inr e ↦ absurd e ]
    ],
    λ h. subst (Any P) (sym (reverse-cons x xs)) (
        (Any-append (reverse xs) (x ∷ [])).1
          (elim h [ inl p ↦ inr (inl p) | inr q ↦ inl ((Any-reverse xs).1 q) ])),
  )

module _ (N : Netipx) (pool in_use : N.IPSet) where
  -- `r` is the free address that comes first in the order `R`, or the error if there is none.
  abbrev pub FirstFree : (Addr → Addr → Type 0) → Result Addr → Type 0
  FirstFree R r =
      ((ip : Addr) × (r ≡ ok ip)
        × IsFree N pool in_use ip
        × ((x : Addr) → IsFree N pool in_use x → (x ≡ ip) ⊎ R ip x))
      ⊎ ((r ≡ err (errorf "no address available")) × ((x : Addr) → ¬ IsFree N pool in_use x))

  -- The search went through a list of ranges with the addresses of the pool.
  of_ListSpec :
      (R : Addr → Addr → Type 0) (rs : List N.IPRange) (r : Result Addr)
      → ((x : Addr) → Any (InRange N x) rs ↔ (N.contains pool x ≡ true))
      → ListSpec N (usable N in_use) R rs r
      → FirstFree R r
  of_ListSpec R rs r same (inl (ip, e, inside, hit, first)) =
      let u = (usable_iff N in_use ip).0 hit in
      inl (
        ip,
        e,
        ((same ip).0 inside, u.0, u.1),
        λ x f. first x ((same x).1 f.0) ((usable_iff N in_use x).1 (f.1, f.2)),
      )
  of_ListSpec R rs r same (inr (e, none_)) =
      inr (e, λ x f. cc (none_ x ((same x).1 f.0), (usable_iff N in_use x).1 (f.1, f.2)))

  module _ (L : SetLaws N) where
    specs :
        (desc : Bool)
        → All
            (λ r. RangeSpec N (usable N in_use) (Precedes desc) r (scan_range N desc in_use r))
            (N.ranges pool)
    specs desc =
        All-map (λ r v. scan_range-RangeSpec N in_use desc r v) (N.ranges pool)
          (L.ranges_valid pool)

    ahead : IsAhead N Before (N.ranges pool)
    ahead = IsSorted-IsAhead N (N.ranges pool) (L.ranges_valid pool) (L.ranges_sorted pool)

    search_down :
        FirstFree After (search_ranges N (scan_range N true in_use) (reverse (N.ranges pool)))
    search_down =
        of_ListSpec After (reverse (N.ranges pool)) _
          (λ x. (
            λ h. (L.contains_iff pool x).1 ((Any-reverse (InRange N x) (N.ranges pool)).0 h),
            λ h. (Any-reverse (InRange N x) (N.ranges pool)).1 ((L.contains_iff pool x).0 h),
          ))
          (search-ListSpec N (usable N in_use) After (scan_range N true in_use)
            (reverse (N.ranges pool)) (All-reverse _ (N.ranges pool) (specs true))
            (IsAhead-reverse N (N.ranges pool) ahead))

    search_up : FirstFree Before (search_ranges N (scan_range N false in_use) (N.ranges pool))
    search_up =
        of_ListSpec Before (N.ranges pool) _
          (λ x. ((L.contains_iff pool x).1, (L.contains_iff pool x).0))
          (search-ListSpec N (usable N in_use) Before (scan_range N false in_use) (N.ranges pool)
            (specs false) ahead)

    either_way :
        (desc : Bool)
        → FirstFree (Precedes desc) (
            if desc
            then search_ranges N (scan_range N true in_use) (reverse (N.ranges pool))
            else search_ranges N (scan_range N false in_use) (N.ranges pool))
    either_way true = search_down
    either_way false = search_up

    -- FindFreeAddress returns the first free address of the pool, the lowest one, or with
    -- `search-order: desc` the highest one. It returns an error exactly if no address is free, and
    -- its loops always end.
    pub find_free_address-FirstFree :
        (c : Option KubevipLbConfig)
        → FirstFree (Precedes (descending c)) (find_free_address N pool in_use c)
    unfolding find_free_address
    find_free_address-FirstFree c = either_way (descending c)
