-- ===== src/Ipam/Manager.antt =====
-- The address manager of pkg/ipam/ipam.go: a pool for each namespace, kept between calls. The
-- global variable `Manager` is the state that the two operations take and return.
pub mod Allocation
pub mod Calls
pub mod Keeps
pub mod Cache
pub mod Stale
pub mod Outcomes
pub mod Safe
pub mod Entries
pub mod Termination
use kube_vip_cloud_provider.Prelude.{
  String, true, false, Option, none, some, List, [], ◌∷◌, ◌++◌, str_eq, if◌then◌else◌, concat,
  GoError, Result, out_of_ips, errorf, foreign, diverged, ok, err,
}
use kube_vip_cloud_provider.Netip.Print.{addr_string}
use kube_vip_cloud_provider.Netipx.{Netipx}
use kube_vip_cloud_provider.Config.{KubevipLbConfig}
use kube_vip_cloud_provider.Ipam.FreeAddress.{find_free_address}
use kube_vip_cloud_provider.Ipam.AddressBuilder.{build_hosts_from_cidr, build_addresses_from_range}

-- Error() of `*OutOfIPsError`, and the text of any other error.
unfoldable pub error_message : GoError → String
error_message (out_of_ips namespace pool is_cidr) = concat (
    "no addresses available in ["
    ∷ namespace
    ∷ "] "
    ∷ (if is_cidr then "cidr" else "range")
    ∷ " ["
    ∷ pool
    ∷ "]"
    ∷ [])
error_message (errorf text) = text
error_message (foreign text) = text
error_message diverged = ""

module _ (N : Netipx) where
  pub record IpManager : Type 0 where
    pub namespace : String
    pub cidr : String
    pub ip_range : String
    pub pool_ip_set : N.IPSet

  -- A free address of the pool as a text. Any error of the search is reported as `failure`.
  unfoldable pub allocate : GoError → N.IPSet → Option KubevipLbConfig → N.IPSet → Result String
  allocate failure in_use c pool = elim (find_free_address N pool in_use c) [
    | ok addr ↦ ok (addr_string addr)
    | err diverged ↦ err diverged
    | err _ ↦ err failure
  ]

  -- The entry of the namespace after a call, and the call's result.
  unfoldable pub use_range :
      String → String → N.IPSet → Option KubevipLbConfig → IpManager → IpManager × Result String
  use_range namespace ip_range in_use c m =
      let failure = out_of_ips namespace ip_range false in
      if str_eq m.ip_range ip_range
      then (m, allocate failure in_use c m.pool_ip_set)
      else elim (build_addresses_from_range N ip_range) [
        | err e ↦ (m, err e)
        | ok pool ↦
            (record m { pool_ip_set = pool; ip_range = ip_range }, allocate failure in_use c pool)
      ]

  unfoldable pub use_cidr :
      String → String → N.IPSet → Option KubevipLbConfig → IpManager → IpManager × Result String
  use_cidr namespace cidr in_use c m =
      let failure = out_of_ips namespace cidr true in
      if str_eq m.cidr cidr
      then (m, allocate failure in_use c m.pool_ip_set)
      else elim (build_hosts_from_cidr N cidr c) [
        | err e ↦ (m, err e)
        | ok pool ↦ (record m { pool_ip_set = pool; cidr = cidr }, allocate failure in_use c pool)
      ]

  -- `for x := range Manager { if Manager[x].namespace == namespace { … return } }`: the manager after
  -- the first entry of the namespace was used, and the result; `none` if it has no entry.
  unfoldable pub at_namespace :
      String
      → (IpManager → IpManager × Result String)
      → List IpManager
      → Option (List IpManager × Result String)
  at_namespace namespace f [] = none
  at_namespace namespace f (m ∷ ms) =
      let rest = at_namespace namespace f ms in
      if str_eq m.namespace namespace
      then (let (m', r) = f m in some (m' ∷ ms, r))
      else elim rest [ none ↦ none | some (ms', r) ↦ some (m ∷ ms', r) ]

  unfoldable pub find_available_host_from_range :
      String
      → String
      → N.IPSet
      → Option KubevipLbConfig
      → List IpManager
      → List IpManager × Result String
  find_available_host_from_range namespace ip_range in_use c ms =
      elim (at_namespace namespace (use_range namespace ip_range in_use c) ms) [
        | some found ↦ found
        | none ↦ elim (build_addresses_from_range N ip_range) [
          | err e ↦ (ms, err e)
          | ok pool ↦
              let new_manager : IpManager = record {
                namespace = namespace;
                cidr = "";
                ip_range = ip_range;
                pool_ip_set = pool;
              } in
              (ms ++ new_manager ∷ [], allocate (out_of_ips namespace ip_range false) in_use c pool)
        ]
      ]

  unfoldable pub find_available_host_from_cidr :
      String
      → String
      → N.IPSet
      → Option KubevipLbConfig
      → List IpManager
      → List IpManager × Result String
  find_available_host_from_cidr namespace cidr in_use c ms =
      elim (at_namespace namespace (use_cidr namespace cidr in_use c) ms) [
        | some found ↦ found
        | none ↦ elim (build_hosts_from_cidr N cidr c) [
          | err e ↦ (ms, err e)
          | ok pool ↦
              let new_manager : IpManager = record {
                namespace = namespace;
                cidr = cidr;
                ip_range = "";
                pool_ip_set = pool;
              } in
              (ms ++ new_manager ∷ [], allocate (out_of_ips namespace cidr true) in_use c pool)
        ]
      ]
