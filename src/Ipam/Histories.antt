-- ===== src/Ipam/Histories.antt =====
-- Histories of calls of the manager over the interval implementation, and its theorems at them.
use kube_vip_cloud_provider.Prelude.{
  ℕ, String, ◌≡◌, refl, ◌⊎◌, true, false, Option, some, List, [], ◌∷◌, map, out_of_ips, ok,
}
use kube_vip_cloud_provider.Netip.{z4, addr_eq}
use kube_vip_cloud_provider.Netipx.Model.{Span, model}
use kube_vip_cloud_provider.Netipx.Model.Laws.{model-SetLaws}
use kube_vip_cloud_provider.Config.{KubevipLbConfig}
use kube_vip_cloud_provider.Ipam.AddressBuilder.{build_addresses_from_range, build_hosts_from_cidr}
use kube_vip_cloud_provider.Ipam.Manager.{
  allocate, find_available_host_from_range, find_available_host_from_cidr, IpManager,
}
use kube_vip_cloud_provider.Ipam.Manager.Calls.{
  after_calls, Kind, of_cidr, Call, call_host, fresh_host, call_hosts,
}
use kube_vip_cloud_provider.Ipam.Manager.Cache.{call_hosts-eq-fresh_host}
use kube_vip_cloud_provider.Ipam.Manager.Entries.{
  IsIn, IsDistinct, namespaces, called, after_calls-IsDistinct,
}
use kube_vip_cloud_provider.Ipam.Manager.Safe.{IsHandedOut, call_host-IsHandedOut}
use kube_vip_cloud_provider.Ipam.Manager.Stale.{cidr_after_range, skip_change_ignored}
use kube_vip_cloud_provider.Ipam.Tests.{ipam_code}

abbrev pub ascending : Option KubevipLbConfig
ascending = some (record { return_ip_in_desc_order = false; skip_end_ips_in_cidr = false })

abbrev pub skipping : Option KubevipLbConfig
skipping = some (record { return_ip_in_desc_order = false; skip_end_ips_in_cidr = true })

abbrev pub span_of : ℕ → ℕ → List Span
span_of a b =
    record { first = record { value = a; zone = z4 }; last = record { value = b; zone = z4 } } ∷ []

-- 10.0.0.8 to 10.0.0.11, and the first of them
abbrev pub cidr_pool : List Span
cidr_pool = span_of 167772168 167772171

abbrev first_taken : List Span
first_taken = span_of 167772168 167772168

-- 10.0.1.5 to 10.0.1.6
abbrev pub range_pool : List Span
range_pool = span_of 167772421 167772422

abbrev call_of : Kind → String → String → List Span → Call model
call_of kind namespace pool in_use = record {
  kind = kind;
  namespace = namespace;
  pool = pool;
  in_use = in_use;
  config = ascending;
}

abbrev calls : List (Call model)
calls =
    call_of of_cidr "dev" "10.0.0.8/30" [] ∷ call_of of_cidr "dev" "10.0.0.8/30" first_taken ∷ []

abbrev always_cidr : String → Kind
always_cidr _ = of_cidr

pub cidr_built : build_hosts_from_cidr model "10.0.0.8/30" ascending ≡ ok cidr_pool
unfolding ipam_code
cidr_built = refl

pub range_built : build_addresses_from_range model "10.0.1.5-10.0.1.6" ≡ ok range_pool
unfolding ipam_code
range_built = refl

answers : call_hosts model [] calls ≡ ok "10.0.0.8" ∷ ok "10.0.0.9" ∷ []
unfolding ipam_code call_hosts call_host addr_eq
answers = refl

abbrev kept : List (IpManager model)
kept =
    record { namespace = "dev"; cidr = "10.0.0.8/30"; ip_range = ""; pool_ip_set = cidr_pool } ∷ []

call_host-IsHandedOut_example :
    IsHandedOut model first_taken
      (call_host model kept (call_of of_cidr "dev" "10.0.0.8/30" first_taken)).1
call_host-IsHandedOut_example =
    call_host-IsHandedOut model model-SetLaws kept (call_of of_cidr "dev" "10.0.0.8/30" first_taken)

call_hosts-eq-fresh_host_example : call_hosts model [] calls ≡ map (fresh_host model) calls
call_hosts-eq-fresh_host_example =
    call_hosts-eq-fresh_host model always_cidr false calls ((refl, refl), ((refl, refl), tt))

cidr_after_range_example :
    let one = (find_available_host_from_cidr model "dev" "10.0.0.8/30" [] ascending []).0 in
    let two = (find_available_host_from_range model "dev" "10.0.1.5-10.0.1.6" [] ascending one).0 in
    (find_available_host_from_cidr model "dev" "10.0.0.8/30" [] ascending two).1
    ≡ allocate model (out_of_ips "dev" "10.0.0.8/30" true) [] ascending range_pool
cidr_after_range_example =
    cidr_after_range model "dev" "10.0.0.8/30" "10.0.1.5-10.0.1.6" cidr_pool range_pool [] [] []
      ascending ascending ascending cidr_built range_built (λ h. cc h)

skip_change_ignored_example :
    let one = (find_available_host_from_cidr model "dev" "10.0.0.8/30" [] ascending []).0 in
    (find_available_host_from_cidr model "dev" "10.0.0.8/30" first_taken skipping one).1
    ≡ allocate model (out_of_ips "dev" "10.0.0.8/30" true) first_taken skipping cidr_pool
skip_change_ignored_example =
    skip_change_ignored model "dev" "10.0.0.8/30" cidr_pool [] first_taken ascending skipping
      cidr_built

after_calls-IsDistinct_example :
    IsDistinct (namespaces model (after_calls model [] calls))
    × ((s : String)
        → IsIn s (namespaces model (after_calls model [] calls))
        → IsIn s (namespaces model []) ⊎ IsIn s (called model calls))
after_calls-IsDistinct_example = after_calls-IsDistinct model [] calls tt
