-- ===== src/Ipam/Manager/Safe.antt =====
-- The addresses that the calls of pkg/ipam/ipam.go hand out, whatever pools the manager keeps.
use kube_vip_cloud_provider.Prelude.{
  String, ◌≡◌, refl, inl, inr, false, Option, List, GoError, Result, err, ok,
}
use kube_vip_cloud_provider.Netip.{Addr}
use kube_vip_cloud_provider.Netip.Print.{addr_string}
use kube_vip_cloud_provider.Netipx.{Netipx, SetLaws}
use kube_vip_cloud_provider.Netipx.Members.{IsAddr, contains-IsAddr}
use kube_vip_cloud_provider.Config.{KubevipLbConfig}
use kube_vip_cloud_provider.Ipam.FreeAddress.Extreme.{IsOrdinary}
use kube_vip_cloud_provider.Ipam.Manager.{
  IpManager, allocate, find_available_host_from_range, find_available_host_from_cidr,
}
use kube_vip_cloud_provider.Ipam.Manager.Outcomes.{range-outcome, cidr-outcome}
use kube_vip_cloud_provider.Ipam.Manager.Allocation.{allocate-Allocates}
use kube_vip_cloud_provider.Ipam.Manager.Calls.{Kind, of_range, of_cidr, Call, call_host}

module _ (N : Netipx) where
  -- The text of an address of one of the families that is not in use and that no network reserves.
  abbrev pub IsHandedOut : N.IPSet → Result String → Type 0
  IsHandedOut in_use (err e) = Unit {0}
  IsHandedOut in_use (ok text) =
      (ip : Addr) × (text ≡ addr_string ip)
      × IsAddr ip
      × (N.contains in_use ip ≡ false)
      × IsOrdinary ip

  module _ (L : SetLaws N) (in_use : N.IPSet) where
    allocate-IsHandedOut :
        (failure : GoError) (c : Option KubevipLbConfig) (pool : N.IPSet)
        → IsHandedOut in_use (allocate N failure in_use c pool)
    allocate-IsHandedOut failure c pool = elim (allocate-Allocates N L failure in_use c pool) [
      | inl (ip, e, free, _) ↦ rw e (ip, refl, contains-IsAddr N L pool ip free.0, free.1, free.2)
      | inr (e, _) ↦ rw e tt
    ]

    pub range-IsHandedOut :
        (namespace pool : String) (c : Option KubevipLbConfig) (ms : List (IpManager N))
        → IsHandedOut in_use (find_available_host_from_range N namespace pool in_use c ms).1
    range-IsHandedOut namespace pool c ms =
        range-outcome N (IsHandedOut in_use) in_use c (λ _ _ _ set. allocate-IsHandedOut _ c set)
          namespace pool (λ e _. tt) ms

    pub cidr-IsHandedOut :
        (namespace pool : String) (c : Option KubevipLbConfig) (ms : List (IpManager N))
        → IsHandedOut in_use (find_available_host_from_cidr N namespace pool in_use c ms).1
    cidr-IsHandedOut namespace pool c ms =
        cidr-outcome N (IsHandedOut in_use) in_use c (λ _ _ _ set. allocate-IsHandedOut _ c set)
          namespace pool (λ e _. tt) ms

  by_kind :
      (L : SetLaws N) (k : Kind) (ms : List (IpManager N)) (call : Call N)
      → call.kind ≡ k
      → IsHandedOut call.in_use (call_host N ms call).1
  unfolding call_host
  by_kind L of_range ms call e =
      rw e (range-IsHandedOut L call.in_use call.namespace call.pool call.config ms)
  by_kind L of_cidr ms call e =
      rw e (cidr-IsHandedOut L call.in_use call.namespace call.pool call.config ms)

  -- Whatever pools the manager keeps, a call that succeeds returns the text of an address, a
  -- number of its family with no zone, that is not in use and that is no IPv4 network or broadcast address.
  pub call_host-IsHandedOut :
      (L : SetLaws N) (ms : List (IpManager N)) (call : Call N)
      → IsHandedOut call.in_use (call_host N ms call).1
  call_host-IsHandedOut L ms call = by_kind L call.kind ms call refl
