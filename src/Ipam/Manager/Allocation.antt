-- ===== src/Ipam/Manager/Allocation.antt =====
-- What one allocation from a pool returns, as a text.
use kube_vip_cloud_provider.Prelude.{
  String, ◌≡◌, refl, ◌⊎◌, inl, inr, Option, GoError, Result, ok, err,
}
use kube_vip_cloud_provider.Netip.{Addr}
use kube_vip_cloud_provider.Netip.Print.{addr_string}
use kube_vip_cloud_provider.Netipx.{Netipx, SetLaws}
use kube_vip_cloud_provider.Config.{KubevipLbConfig}
use kube_vip_cloud_provider.Ipam.FreeAddress.{descending}
use kube_vip_cloud_provider.Ipam.FreeAddress.Order.{Precedes}
use kube_vip_cloud_provider.Ipam.FreeAddress.Extreme.{IsFree, find_free_address-FirstFree}
use kube_vip_cloud_provider.Ipam.Manager.{allocate}

module _ (N : Netipx) where
  -- The first free address of the pool, printed, or `failure` if no address is free.
  abbrev pub Allocates :
      GoError → N.IPSet → Option KubevipLbConfig → N.IPSet → Result String → Type 0
  Allocates failure in_use c pool r =
      ((ip : Addr) × (r ≡ ok (addr_string ip))
        × IsFree N pool in_use ip
        × ((x : Addr) → IsFree N pool in_use x → (x ≡ ip) ⊎ Precedes (descending c) ip x))
      ⊎ ((r ≡ err failure) × ((x : Addr) → ¬ IsFree N pool in_use x))

  pub allocate-Allocates :
      (L : SetLaws N) (failure : GoError) (in_use : N.IPSet) (c : Option KubevipLbConfig)
      (pool : N.IPSet)
      → Allocates failure in_use c pool (allocate N failure in_use c pool)
  unfolding allocate
  allocate-Allocates L failure in_use c pool =
      elim (find_free_address-FirstFree N pool in_use L c) [
        | inl (ip, e, free, first) ↦ rw (e, allocate) (inl (ip, refl, free, first))
        | inr (e, none_) ↦ rw (e, allocate) (inr (refl, none_))
      ]
