-- ===== src/Ipam/Manager/Calls.antt =====
-- A history of calls of the manager, and what each call would return with no pools kept.
use kube_vip_cloud_provider.Prelude.{
  String, true, false, Option, List, [], ◌∷◌, Result, ◌>>=◌, out_of_ips,
}
use kube_vip_cloud_provider.Netipx.{Netipx}
use kube_vip_cloud_provider.Config.{KubevipLbConfig}
use kube_vip_cloud_provider.Ipam.AddressBuilder.{build_hosts_from_cidr, build_addresses_from_range}
use kube_vip_cloud_provider.Ipam.Manager.{
  IpManager, allocate, find_available_host_from_range, find_available_host_from_cidr,
}

pub data Kind : Type 0 where
  of_range of_cidr : Kind

module _ (N : Netipx) where
  pub record Call : Type 0 where
    pub kind : Kind
    pub namespace : String
    pub pool : String
    pub in_use : N.IPSet
    pub config : Option KubevipLbConfig

  unfoldable pub call_host : List (IpManager N) → Call → List (IpManager N) × Result String
  call_host ms call = elim call.kind [
    | of_range ↦
        find_available_host_from_range N call.namespace call.pool call.in_use call.config ms
    | of_cidr ↦ find_available_host_from_cidr N call.namespace call.pool call.in_use call.config ms
  ]

  -- The pool built anew, and an address from it.
  unfoldable pub fresh_host : Call → Result String
  fresh_host call = elim call.kind [
    | of_range ↦ do
      pool ← build_addresses_from_range N call.pool
      allocate N (out_of_ips call.namespace call.pool false) call.in_use call.config pool
    | of_cidr ↦ do
      pool ← build_hosts_from_cidr N call.pool call.config
      allocate N (out_of_ips call.namespace call.pool true) call.in_use call.config pool
  ]

  -- The results of the calls, one after the other.
  unfoldable pub call_hosts : List (IpManager N) → List Call → List (Result String)
  call_hosts ms [] = []
  call_hosts ms (call ∷ calls) = let (ms', r) = call_host ms call in r ∷ call_hosts ms' calls

  -- The manager after the calls.
  unfoldable pub after_calls : List (IpManager N) → List Call → List (IpManager N)
  after_calls ms [] = ms
  after_calls ms (call ∷ calls) = after_calls (call_host ms call).0 calls
