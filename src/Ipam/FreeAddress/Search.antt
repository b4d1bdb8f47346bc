-- ===== src/Ipam/FreeAddress/Search.antt =====
-- The loop of FindFreeAddress over the ranges of a pool.
use kube_vip_cloud_provider.Prelude.{
  ◌≡◌, refl, ◌⊎◌, inl, inr, Bool, true, false, List, [], ◌∷◌, All, Any, Result, ok, err, errorf,
}
use kube_vip_cloud_provider.Netip.{Addr}
use kube_vip_cloud_provider.Netipx.{Netipx, InRange}
use kube_vip_cloud_provider.Ipam.FreeAddress.{Scan, found, exhausted, search_ranges}

module _ (N : Netipx) (R : Addr → Addr → Type 0) where
  -- All of the first range comes `R`-before all of the second.
  abbrev pub Ahead : N.IPRange → N.IPRange → Type 0
  Ahead r s = (x y : Addr) → InRange N x r → InRange N y s → R x y

  abbrev pub IsAhead : List N.IPRange → Type 0
  IsAhead [] = Unit {0}
  IsAhead (r ∷ rs) = All (Ahead r) rs × IsAhead rs

  ahead_of_any :
      {r : N.IPRange} (rs : List N.IPRange)
      → All (Ahead r) rs
      → (x y : Addr) → InRange N x r
      → Any (InRange N y) rs
      → R x y
  ahead_of_any [] a x y p q = absurd q
  ahead_of_any (s ∷ rs) a x y p (inl q) = a.0 x y p q
  ahead_of_any (s ∷ rs) a x y p (inr q) = ahead_of_any rs a.1 x y p q

module _ (N : Netipx) (test : Addr → Bool) (R : Addr → Addr → Type 0) where
  -- The scan of one range finds its `R`-first address that passes the test, or there is none.
  abbrev pub RangeSpec : N.IPRange → Scan → Type 0
  RangeSpec r result =
      ((ip : Addr) × (result ≡ found ip)
        × InRange N ip r
        × (test ip ≡ true)
        × ((x : Addr) → InRange N x r → test x ≡ true → (x ≡ ip) ⊎ R ip x))
      ⊎ ((result ≡ exhausted) × ((x : Addr) → InRange N x r → test x ≡ false))

  -- The same of a list of ranges.
  abbrev pub ListSpec : List N.IPRange → Result Addr → Type 0
  ListSpec rs result =
      ((ip : Addr) × (result ≡ ok ip)
        × Any (InRange N ip) rs
        × (test ip ≡ true)
        × ((x : Addr) → Any (InRange N x) rs → test x ≡ true → (x ≡ ip) ⊎ R ip x))
      ⊎ ((result ≡ err (errorf "no address available"))
          × ((x : Addr) → Any (InRange N x) rs → test x ≡ false))

  pub search-ListSpec :
      (scan_one : N.IPRange → Scan) (rs : List N.IPRange)
      → All (λ r. RangeSpec r (scan_one r)) rs
      → IsAhead N R rs
      → ListSpec rs (search_ranges N scan_one rs)
  unfolding search_ranges
  search-ListSpec scan_one [] specs ahead = inr (refl, λ x m. absurd m)
  search-ListSpec scan_one (r ∷ rs) (inl (ip, e, inside, hit, first), specs) ahead =
      rw (e, search_ranges)
        (inl (
          ip,
          refl,
          inl inside,
          hit,
          λ x m t. elim m [
            | inl p ↦ first x p t
            | inr q ↦ inr (ahead_of_any N R rs ahead.0 ip x inside q)
          ],
        ))
  search-ListSpec scan_one (r ∷ rs) (inr (e, miss), specs) ahead =
      rw (e, search_ranges)
        (elim (search-ListSpec scan_one rs specs ahead.1) [
          | inl (ip, e', inside, hit, first) ↦ inl (
            ip,
            e',
            inr inside,
            hit,
            λ x m t. elim m [ inl p ↦ absurd (cc (miss x p)) | inr q ↦ first x q t ],
          )
          | inr (e', none_) ↦ inr (e', λ x m. elim m [ inl p ↦ miss x p | inr q ↦ none_ x q ])
        ])
