-- ===== src/Provider/VipTests.antt =====
-- The theorems on pools, shared addresses and families at services and pools of the fixtures.
use kube_vip_cloud_provider.Prelude.{
  Any, ◌≡◌, refl, ◌≢◌, ◌↔◌, inl, true, false, some, [], ◌∷◌, arith, is_empty, All, Ends, out_of_ips,
  diverged, err, ok,
}
use kube_vip_cloud_provider.Netip.{Addr}
use kube_vip_cloud_provider.Netipx.Model.{model}
use kube_vip_cloud_provider.Netipx.Model.Laws.{model-SetLaws}
use kube_vip_cloud_provider.Netipx.Model.Adding.{model-AddLaws}
use kube_vip_cloud_provider.Kube.{
  Service, ipv4_protocol, ipv6_protocol, prefer_dual_stack, require_dual_stack,
}
use kube_vip_cloud_provider.Ipam.Families.{Pools}
use kube_vip_cloud_provider.Provider.Pool.{discover_pool}
use kube_vip_cloud_provider.Config.{service_interface_prefix}
use kube_vip_cloud_provider.Provider.Interface.{discover_interface}
use kube_vip_cloud_provider.Provider.Interface.Fallback.{
  value_if_any, discover_interface-first_present,
}
use kube_vip_cloud_provider.Provider.Pool.Precedence.{
  setting_keys, IsDiscovered, first_present, pool_keys, discover_pool-IsDiscovered,
}
use kube_vip_cloud_provider.Provider.Sharing.{
  has_port, map_implemented_services, discover_shared_vips,
}
use kube_vip_cloud_provider.Provider.Sharing.Marked.{Uses}
use kube_vip_cloud_provider.Provider.Sharing.Conflict.{
  NoCommonPort, discover_shared_vips-no_conflict,
}
use kube_vip_cloud_provider.Provider.Sharing.InUse.{Occupies, map_implemented_services-Contained}
use kube_vip_cloud_provider.Provider.Sharing.Portless.{discover_shared_vips-portless}
use kube_vip_cloud_provider.Provider.Vips.{vip_from_pool, discover_vips_dual_stack, discover_vips}
use kube_vip_cloud_provider.Provider.Vips.Dual.{
  BothGiven, BestEffort, first_vip, second_vip, prefer_dual_stack-BestEffort,
  require_dual_stack-all_or_nothing, prefer_dual_stack-empty_vip,
}
use kube_vip_cloud_provider.Provider.Vips.Termination.{discover_vips-Ends}
use kube_vip_cloud_provider.Provider.Vips.Safe.{VipsIfAny, discover_vips-Vips}
use kube_vip_cloud_provider.Provider.Fixtures.{
  provider_code, port_of, web, new_service, kubevip, web_address, request_beside, in_order,
  in_order-IsListing,
}

-- The namespace has a range, and the whole cluster a CIDR, which is the one that is taken.
discover_pool-IsDiscovered_example :
    IsDiscovered
      (kubevip (("range-dev", "10.0.1.5-10.0.1.6") ∷ ("cidr-global", "10.0.0.8/30") ∷ []))
      "dev"
      (first_present
        (pool_keys "dev")
        (kubevip (("range-dev", "10.0.1.5-10.0.1.6") ∷ ("cidr-global", "10.0.0.8/30") ∷ [])))
      (discover_pool
        (kubevip (("range-dev", "10.0.1.5-10.0.1.6") ∷ ("cidr-global", "10.0.0.8/30") ∷ []))
        "dev")
discover_pool-IsDiscovered_example =
    discover_pool-IsDiscovered
      (kubevip (("range-dev", "10.0.1.5-10.0.1.6") ∷ ("cidr-global", "10.0.0.8/30") ∷ [])) "dev"

mapped :
    map_implemented_services model (web ∷ []) true ≡ ok (web_address, ("10.0.0.8", 80 ∷ []) ∷ [])
unfolding provider_code
mapped = refl

shared :
    discover_shared_vips (new_service (port_of 443 ∷ [])) (in_order (("10.0.0.8", 80 ∷ []) ∷ []))
    ≡ "10.0.0.8"
unfolding provider_code
shared = refl

discover_shared_vips-no_conflict_example :
    All
      (λ (other : Service).
        Uses other "10.0.0.8" → (other.ports ≢ []) × NoCommonPort (port_of 443 ∷ []) other.ports)
      (web ∷ [])
discover_shared_vips-no_conflict_example =
    discover_shared_vips-no_conflict model (web ∷ []) web_address (("10.0.0.8", 80 ∷ []) ∷ [])
      (in_order (("10.0.0.8", 80 ∷ []) ∷ [])) (new_service (port_of 443 ∷ [])) "10.0.0.8" mapped
      (in_order-IsListing (("10.0.0.8", 80 ∷ []) ∷ [])) shared (λ h. cc h)

map_implemented_services-Contained_example :
    All
      (λ svc. (addr : Addr) → Occupies svc addr → model.contains web_address addr ≡ true)
      (web ∷ [])
map_implemented_services-Contained_example =
    map_implemented_services-Contained model model-AddLaws (web ∷ []) true web_address
      (("10.0.0.8", 80 ∷ []) ∷ []) mapped

port_open : Any (λ e. has_port 0 e.1 ≡ false) (in_order (("10.0.0.8", 80 ∷ []) ∷ []))
unfolding provider_code
port_open = inl refl

discover_shared_vips-portless_example :
    Any
      (λ (other : Service).
        Uses other (discover_shared_vips (new_service []) (in_order (("10.0.0.8", 80 ∷ []) ∷ []))))
      (web ∷ [])
    × All
        (λ (other : Service).
          Uses other (discover_shared_vips (new_service []) (in_order (("10.0.0.8", 80 ∷ []) ∷ [])))
          → other.ports ≢ [])
        (web ∷ [])
discover_shared_vips-portless_example =
    discover_shared_vips-portless model (web ∷ []) web_address (("10.0.0.8", 80 ∷ []) ∷ [])
      (in_order (("10.0.0.8", 80 ∷ []) ∷ [])) (new_service []) mapped
      (in_order-IsListing (("10.0.0.8", 80 ∷ []) ∷ [])) refl port_open

abbrev both : Pools
both = record { ipv4 = "10.0.0.8/30"; ipv6 = "fd00::10/126" }

abbrev only_ipv4 : Pools
only_ipv4 = record { ipv4 = "10.0.0.8/32"; ipv6 = "" }

discover_vips-Vips_example :
    VipsIfAny model model-SetLaws
      (request_beside web_address "")
      2
      (discover_vips model
        (request_beside web_address "")
        "10.0.0.8/30,fd00::10/126"
        (some prefer_dual_stack)
        (ipv6_protocol ∷ [])
        []).1
discover_vips-Vips_example =
    discover_vips-Vips model model-SetLaws (request_beside web_address "")
      "10.0.0.8/30,fd00::10/126" (some prefer_dual_stack) (ipv6_protocol ∷ []) []

two_vips :
    (discover_vips model
      (request_beside web_address "")
      "10.0.0.8/30,fd00::10/126"
      (some prefer_dual_stack)
      (ipv6_protocol ∷ [])
      []).1
    ≡ ok "fd00::10,10.0.0.9"
unfolding provider_code
two_vips = refl

prefer_dual_stack-BestEffort_example :
    BestEffort
      (first_vip model (request_beside web_address "") both (ipv6_protocol ∷ []) []).1
      (second_vip model (request_beside web_address "") both (ipv6_protocol ∷ []) []).1
      (discover_vips_dual_stack model
        (request_beside web_address "")
        both
        prefer_dual_stack
        (ipv6_protocol ∷ [])
        []).1
prefer_dual_stack-BestEffort_example =
    prefer_dual_stack-BestEffort model (request_beside web_address "") both refl refl
      (ipv6_protocol ∷ []) []

require_dual_stack-all_or_nothing_example :
    ((discover_vips_dual_stack model
        (request_beside web_address "")
        both
        require_dual_stack
        (ipv4_protocol ∷ [])
        []).1
      ≡ ok "10.0.0.9,fd00::10")
    ↔ ((is_empty both.ipv4 ≡ false)
        × (is_empty both.ipv6 ≡ false)
        × BothGiven
            (first_vip model (request_beside web_address "") both (ipv4_protocol ∷ []) []).1
            (second_vip model (request_beside web_address "") both (ipv4_protocol ∷ []) []).1
            "10.0.0.9,fd00::10")
require_dual_stack-all_or_nothing_example =
    require_dual_stack-all_or_nothing model (request_beside web_address "") both
      (ipv4_protocol ∷ []) [] "10.0.0.9,fd00::10"

exhausted :
    (vip_from_pool model (request_beside web_address "") only_ipv4 "10.0.0.8/32" []).1
    ≡ err (out_of_ips "dev" "10.0.0.8/32" true)
unfolding provider_code
exhausted = refl

prefer_dual_stack-empty_vip_example :
    (discover_vips_dual_stack model
      (request_beside web_address "")
      only_ipv4
      prefer_dual_stack
      (ipv4_protocol ∷ [])
      []).1
    ≡ ok ""
prefer_dual_stack-empty_vip_example =
    prefer_dual_stack-empty_vip model (request_beside web_address "") only_ipv4 (ipv4_protocol ∷ [])
      [] refl refl exhausted

discover_interface-first_present_example :
    discover_interface (kubevip (("interface-global", "eth0") ∷ [])) "dev"
    ≡ value_if_any (
        first_present
          (setting_keys "dev" service_interface_prefix)
          (kubevip (("interface-global", "eth0") ∷ [])))
discover_interface-first_present_example =
    discover_interface-first_present (kubevip (("interface-global", "eth0") ∷ [])) "dev"

model_builds : (b : model.IPSetBuilder) → Ends (model.ip_set b)
model_builds b = ground arith

discover_vips-Ends_example :
    (discover_vips model
      (request_beside web_address "")
      "10.0.0.8/30,fd00::10/126"
      (some require_dual_stack)
      (ipv4_protocol ∷ [])
      []).1
    ≢ err diverged
discover_vips-Ends_example =
    discover_vips-Ends model model_builds model-SetLaws (request_beside web_address "")
      "10.0.0.8/30,fd00::10/126" (some require_dual_stack) (ipv4_protocol ∷ []) []
