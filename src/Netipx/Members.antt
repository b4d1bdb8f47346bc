-- ===== src/Netipx/Members.antt =====
-- The addresses that an IPSet can have.
use kube_vip_cloud_provider.Prelude.{
  ◌<◌, ◌≡◌, subst, sym, ◌⊎◌, inl, inr, true, List, [], ◌∷◌, arith, All, Any,
}
use kube_vip_cloud_provider.Netip.{Addr, z4, z6noz, space}
use kube_vip_cloud_provider.Netipx.{Netipx, InRange, IsRange, SetLaws}

-- A number of one of the two families, with no zone.
abbrev pub IsAddr : Addr → Type 0
IsAddr a = ((a.zone ≡ z4) ⊎ (a.zone ≡ z6noz)) × (a.value < space a.zone)

module _ (N : Netipx) where
  InRange-IsAddr : (r : N.IPRange) (a : Addr) → IsRange N r → InRange N a r → IsAddr a
  InRange-IsAddr r a v (zone, low, high) =
      let limit : (N.to r).value < space a.zone =
        subst (λ z. (N.to r).value < space z) (sym zone) v.in_space in
      (rw zone v.no_zone, omega arith)

  Any-IsAddr :
      (rs : List N.IPRange) (a : Addr) → All (IsRange N) rs → Any (InRange N a) rs → IsAddr a
  Any-IsAddr [] a vs h = absurd h
  Any-IsAddr (r ∷ rs) a (v, vs) (inl h) = InRange-IsAddr r a v h
  Any-IsAddr (r ∷ rs) a (v, vs) (inr h) = Any-IsAddr rs a vs h

  pub contains-IsAddr : (L : SetLaws N) (s : N.IPSet) (a : Addr) → N.contains s a ≡ true → IsAddr a
  contains-IsAddr L s a h = Any-IsAddr (N.ranges s) a (L.ranges_valid s) ((L.contains_iff s a).0 h)
