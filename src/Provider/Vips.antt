-- ===== src/Provider/Vips.antt =====
-- The addresses of a service from its pool: discoverAddress, discoverVIPsSingleStack,
-- discoverFromPool, discoverVIPsDualStack and discoverVIPs of pkg/provider/loadBalancer.go.
-- The address manager goes through every call.
pub mod Dual
pub mod Safe
pub mod Termination
pub mod FromRange
use kube_vip_cloud_provider.Prelude.{
  ℕ, zero, suc, ◌+◌, ◌-◌, ◌*◌, ◌/◌, ◌%◌, ◌^◌, ◌≤◌, ◌<◌, String, ◌≡◌, refl, sym, ap, ◌∙◌, subst, ◌≢◌,
  ◌↔◌, ◌⊎◌, inl, inr, Bool, true, false, not, ◌&&◌, ◌||◌, Option, none, some, List, [], ◌∷◌, ◌++◌,
  map, arith, str_eq, eq_iff, ltb, leb, ◌==◌, if◌then◌else◌, ==_iff, Bool-cases, Option-cases,
  split, contains_byte, is_empty, concat, join, append_text, first_code, length, All, Any, GoError,
  Result, ◌>>=◌, Result-cases, out_of_ips, errorf, foreign, diverged, ok, err,
}
use kube_vip_cloud_provider.Netipx.{Netipx}
use kube_vip_cloud_provider.Config.{KubevipLbConfig}
use kube_vip_cloud_provider.Kube.{
  IpFamily, ipv6_protocol, IpFamilyPolicy, single_stack, prefer_dual_stack, require_dual_stack,
}
use kube_vip_cloud_provider.Ipam.Families.{
  Pools, split_cidrs_by_ip_family, split_ranges_by_ip_family,
}
use kube_vip_cloud_provider.Ipam.Manager.{
  IpManager, error_message, find_available_host_from_range, find_available_host_from_cidr,
}

abbrev pub dhcp_pool : String
dhcp_pool = "0.0.0.0/32"

-- renderErrors
unfoldable pub render_errors : List (Option GoError) → String
render_errors [] = ""
render_errors (none ∷ es) = render_errors es
render_errors (some e ∷ es) =
    append_text "\n\t- " (append_text (error_message e) (render_errors es))

-- `len(ipFamilies) > 0 && ipFamilies[0] == v1.IPv6Protocol`
abbrev pub ipv6_first : List IpFamily → Bool
ipv6_first (ipv6_protocol ∷ _) = true
ipv6_first _ = false

abbrev pub no_families : List IpFamily → Bool
no_families [] = true
no_families (_ ∷ _) = false

-- A failure of `discoverAddress`: an exhausted pool is noted, any other error ends the search.
abbrev pub pool_outcome : GoError → Result (Option GoError)
pool_outcome (out_of_ips ns pool is_cidr) = ok (some (out_of_ips ns pool is_cidr))
pool_outcome e = err e

-- What is made of the two pools' own errors.
unfoldable pub dual_result :
    IpFamilyPolicy → Option GoError → Option GoError → List String → Result String
dual_result prefer_dual_stack (some e) (some e') vips = err (
    errorf (
      append_text "could not allocate any IP address for PreferDualStack service: "
        (render_errors (some e ∷ some e' ∷ []))))
dual_result require_dual_stack (some e) e' vips = err (
    errorf (
      append_text "could not allocate required IP addresses for RequireDualStack service: "
        (render_errors (some e ∷ e' ∷ []))))
dual_result require_dual_stack none (some e') vips = err (
    errorf (
      append_text "could not allocate required IP addresses for RequireDualStack service: "
        (render_errors (none ∷ some e' ∷ []))))
dual_result _ _ _ vips = ok (join "," vips)

abbrev pub primary_pool : Pools → List IpFamily → String
primary_pool pools families = if ipv6_first families then pools.ipv6 else pools.ipv4

abbrev pub secondary_pool : Pools → List IpFamily → String
secondary_pool pools families = if ipv6_first families then pools.ipv4 else pools.ipv6

abbrev pub requires_both : IpFamilyPolicy → Bool
requires_both require_dual_stack = true
requires_both _ = false

-- The pool of a single-stack service.
unfoldable pub single_pool : Pools → List IpFamily → String
single_pool pools families =
    if no_families families
    then (if is_empty pools.ipv4 then pools.ipv6 else pools.ipv4)
    else if ipv6_first families
    then pools.ipv6
    else pools.ipv4

module _ (N : Netipx) where
  -- What one allocation depends on besides the manager.
  pub record Request : Type 0 where
    pub namespace : String
    pub preferred_ipv4 : String
    pub in_use : N.IPSet
    pub config : Option KubevipLbConfig

  abbrev pub Managers : Type 0
  Managers = List (IpManager N)

  unfoldable pub discover_address : Request → String → Managers → Managers × Result String
  discover_address req pool ms =
      if str_eq pool dhcp_pool
      then (ms, ok "0.0.0.0")
      else if contains_byte b'/' pool
      then find_available_host_from_cidr N req.namespace pool req.in_use req.config ms
      else find_available_host_from_range N req.namespace pool req.in_use req.config ms

  -- `pool == ipv4Pool && len(preferredIpv4ServiceIP) > 0`
  abbrev pub takes_preferred : Request → Pools → String → Bool
  takes_preferred req pools pool = str_eq pool pools.ipv4 && not (is_empty req.preferred_ipv4)

  unfoldable pub discover_vips_single_stack :
      Request → Pools → List IpFamily → Managers → Managers × Result String
  discover_vips_single_stack req pools families ms =
      let pool = single_pool pools families in
      if is_empty pool
      then (ms, err (errorf "could not find suitable pool for the IP family of the service"))
      else if takes_preferred req pools pool
      then (ms, ok req.preferred_ipv4)
      else discover_address req pool ms

  -- The managers, the addresses so far, and the pool's own error if it has no address left.
  pub record Step : Type 0 where
    pub managers : Managers
    pub vips : List String
    pub outcome : Result (Option GoError)

  unfoldable pub append_vip : List String → Managers × Result String → Step
  append_vip vips (ms, ok vip) = record {
    managers = ms;
    vips = vips ++ vip ∷ [];
    outcome = ok none;
  }
  append_vip vips (ms, err e) = record { managers = ms; vips = vips; outcome = pool_outcome e }

  -- The address from a pool that is not empty: the preferred one, or one of the manager's.
  unfoldable pub vip_from_pool : Request → Pools → String → Managers → Managers × Result String
  vip_from_pool req pools pool ms =
      if takes_preferred req pools pool
      then (ms, ok req.preferred_ipv4)
      else discover_address req pool ms

  unfoldable pub discover_from_pool : Request → Pools → String → List String → Managers → Step
  unfolding append_vip
  discover_from_pool req pools pool vips ms =
      if is_empty pool
      then record { managers = ms; vips = vips; outcome = ok none }
      else append_vip vips (vip_from_pool req pools pool ms)

  unfoldable pub after_secondary : IpFamilyPolicy → Option GoError → Step → Managers × Result String
  after_secondary policy primary_error second = elim second.outcome [
    | err e ↦ (second.managers, err e)
    | ok secondary_error ↦
        (second.managers, dual_result policy primary_error secondary_error second.vips)
  ]

  unfoldable pub after_primary :
      Request → Pools → IpFamilyPolicy → List IpFamily → Step → Managers × Result String
  after_primary req pools policy families first = elim first.outcome [
    | err e ↦ (first.managers, err e)
    | ok primary_error ↦
        after_secondary policy primary_error
          (discover_from_pool req pools (secondary_pool pools families) first.vips first.managers)
  ]

  unfoldable pub discover_vips_dual_stack :
      Request → Pools → IpFamilyPolicy → List IpFamily → Managers → Managers × Result String
  discover_vips_dual_stack req pools policy families ms =
      if requires_both policy && (is_empty pools.ipv4 || is_empty pools.ipv6)
      then (
        ms,
        err (
            errorf
              "service requires dual-stack, but the configuration does not have both IPv4 and IPv6 pools listed for the namespace"),
      )
      else after_primary req pools policy families
          (discover_from_pool req pools (primary_pool pools families) [] ms)

  abbrev pub split_pool : String → Result Pools
  split_pool pool =
      if contains_byte b'/' pool
      then split_cidrs_by_ip_family N pool
      else split_ranges_by_ip_family N pool

  abbrev pub by_policy :
      Request → Option IpFamilyPolicy → List IpFamily → Managers → Pools → Managers × Result String
  by_policy req none families ms pools = discover_vips_single_stack req pools families ms
  by_policy req (some single_stack) families ms pools =
      discover_vips_single_stack req pools families ms
  by_policy req (some policy) families ms pools =
      discover_vips_dual_stack req pools policy families ms

  unfoldable pub discover_vips :
      Request → String → Option IpFamilyPolicy → List IpFamily → Managers → Managers × Result String
  discover_vips req pool policy families ms =
      if str_eq pool dhcp_pool
      then (ms, ok "0.0.0.0")
      else if is_empty pool
      then (ms, err (errorf "could not discover address: pool is not specified"))
      else elim (split_pool pool) [
        | err e ↦ (ms, err e)
        | ok pools ↦ by_policy req policy families ms pools
      ]
