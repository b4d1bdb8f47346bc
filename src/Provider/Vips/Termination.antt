-- ===== src/Provider/Vips/Termination.antt =====
-- That discoverVIPs of pkg/provider/loadBalancer.go comes back.
use kube_vip_cloud_provider.Prelude.{
  String, ◌≡◌, refl, subst, ◌≢◌, inl, inr, ◌&&◌, ◌||◌, Option, none, some, List, [], str_eq,
  Bool-cases, contains_byte, is_empty, GoError, Result, Result-cases, Ends, err-Ends, out_of_ips,
  errorf, foreign, diverged, err, ok,
}
use kube_vip_cloud_provider.Netipx.{Netipx, SetLaws}
use kube_vip_cloud_provider.Kube.{
  IpFamily, IpFamilyPolicy, other_policy, single_stack, prefer_dual_stack, require_dual_stack,
}
use kube_vip_cloud_provider.Ipam.Families.{Pools}
use kube_vip_cloud_provider.Ipam.Manager.Termination.{
  split_cidrs-Ends, split_ranges-Ends, range-Ends, cidr-Ends,
}
use kube_vip_cloud_provider.Provider.Vips.{
  Request, Managers, Step, append_vip, vip_from_pool, discover_from_pool, dhcp_pool,
  discover_address, dual_result, after_primary, after_secondary, requires_both, single_pool,
  takes_preferred, split_pool, by_policy, discover_vips_single_stack, discover_vips_dual_stack,
  discover_vips, pool_outcome, secondary_pool, primary_pool,
}

pool_outcome-Ends :
    {A : Type 0} (e : GoError) → ¬ ◌≡◌ {A = Result A} (err e) (err diverged) → Ends (pool_outcome e)
pool_outcome-Ends (out_of_ips _ _ _) h = λ k. cc
pool_outcome-Ends (errorf _) h = λ k. cc
pool_outcome-Ends (foreign _) h = λ k. cc
pool_outcome-Ends diverged h = absurd (h refl)

dual_result-Ends :
    (policy : IpFamilyPolicy) (p p' : Option GoError) (vips : List String)
    → Ends (dual_result policy p p' vips)
unfolding dual_result
dual_result-Ends prefer_dual_stack (some e) (some e') vips = λ h. cc
dual_result-Ends prefer_dual_stack (some e) none vips = λ h. cc
dual_result-Ends prefer_dual_stack none p' vips = λ h. cc
dual_result-Ends require_dual_stack (some e) p' vips = λ h. cc
dual_result-Ends require_dual_stack none (some e') vips = λ h. cc
dual_result-Ends require_dual_stack none none vips = λ h. cc
dual_result-Ends single_stack p p' vips = λ h. cc
dual_result-Ends (other_policy _) p p' vips = λ h. cc

module _ (N : Netipx) (builds : (b : N.IPSetBuilder) → Ends (N.ip_set b)) (L : SetLaws N) where
  split_pool-Ends : (pool : String) → Ends (split_pool N pool)
  split_pool-Ends pool = elim (Bool-cases (contains_byte b'/' pool)) [
    | inl e ↦ rw e (split_cidrs-Ends N builds pool)
    | inr e ↦ rw e (split_ranges-Ends N builds pool)
  ]

  module _ (req : Request N) where
    discover_address-Ends :
        (pool : String) (ms : Managers N) → Ends (discover_address N req pool ms).1
    unfolding discover_address
    discover_address-Ends pool ms = elim (Bool-cases (str_eq pool dhcp_pool)) [
      | inl e ↦ rw (discover_address, e) (λ h. cc)
      | inr e ↦ elim (Bool-cases (contains_byte b'/' pool)) [
        | inl c ↦
            rw (discover_address, e, c)
              (cidr-Ends N builds L req.in_use req.config req.namespace pool ms)
        | inr c ↦
            rw (discover_address, e, c)
              (range-Ends N builds L req.in_use req.config req.namespace pool ms)
      ]
    ]

    vip_from_pool-Ends :
        (pools : Pools) (pool : String) (ms : Managers N)
        → Ends (vip_from_pool N req pools pool ms).1
    unfolding vip_from_pool
    vip_from_pool-Ends pools pool ms = elim (Bool-cases (takes_preferred N req pools pool)) [
      | inl e ↦ rw (vip_from_pool, e) (λ h. cc)
      | inr e ↦ rw (vip_from_pool, e) (discover_address-Ends pool ms)
    ]

    append_vip-Ends :
        (vips : List String) (v : Managers N × Result String)
        → Ends v.1
        → Ends (append_vip N vips v).outcome
    unfolding append_vip
    append_vip-Ends vips (ms, ok vip) h = λ k. cc
    append_vip-Ends vips (ms, err e) h = pool_outcome-Ends e h

    discover_from_pool-Ends :
        (pools : Pools) (pool : String) (vips : List String) (ms : Managers N)
        → Ends (discover_from_pool N req pools pool vips ms).outcome
    unfolding discover_from_pool
    discover_from_pool-Ends pools pool vips ms = elim (Bool-cases (is_empty pool)) [
      | inl e ↦ rw (discover_from_pool, e) (λ h. cc)
      | inr e ↦
          rw (discover_from_pool, e) (append_vip-Ends vips _ (vip_from_pool-Ends pools pool ms))
    ]

    after_secondary-Ends :
        (policy : IpFamilyPolicy) (p : Option GoError) (second : Step N)
        → Ends second.outcome
        → Ends (after_secondary N policy p second).1
    unfolding after_secondary
    after_secondary-Ends policy p second h = elim (Result-cases second.outcome) [
      | inl (p', e) ↦ rw (after_secondary, e) (dual_result-Ends policy p p' second.vips)
      | inr (failure, e) ↦ rw (after_secondary, e) (err-Ends (subst Ends e h))
    ]

    after_primary-Ends :
        (pools : Pools) (policy : IpFamilyPolicy) (families : List IpFamily) (first : Step N)
        → Ends first.outcome
        → Ends (after_primary N req pools policy families first).1
    unfolding after_primary
    after_primary-Ends pools policy families first h = elim (Result-cases first.outcome) [
      | inl (p, e) ↦
          rw (after_primary, e)
            (after_secondary-Ends policy p _ (
              discover_from_pool-Ends pools (secondary_pool pools families) first.vips
                first.managers))
      | inr (failure, e) ↦ rw (after_primary, e) (err-Ends (subst Ends e h))
    ]

    dual_stack-Ends :
        (pools : Pools) (policy : IpFamilyPolicy) (families : List IpFamily) (ms : Managers N)
        → Ends (discover_vips_dual_stack N req pools policy families ms).1
    unfolding discover_vips_dual_stack
    dual_stack-Ends pools policy families ms =
        elim (Bool-cases (requires_both policy && (is_empty pools.ipv4 || is_empty pools.ipv6))) [
          | inl e ↦ rw (discover_vips_dual_stack, e) (λ h. cc)
          | inr e ↦
              rw (discover_vips_dual_stack, e)
                (after_primary-Ends pools policy families _
                  (discover_from_pool-Ends pools (primary_pool pools families) [] ms))
        ]

    single_stack-Ends :
        (pools : Pools) (families : List IpFamily) (ms : Managers N)
        → Ends (discover_vips_single_stack N req pools families ms).1
    unfolding discover_vips_single_stack
    single_stack-Ends pools families ms =
        elim (Bool-cases (is_empty (single_pool pools families))) [
          | inl e ↦ rw (discover_vips_single_stack, e) (λ h. cc)
          | inr e ↦ elim (Bool-cases (takes_preferred N req pools (single_pool pools families))) [
            | inl t ↦ rw (discover_vips_single_stack, e, t) (λ h. cc)
            | inr t ↦ rw (discover_vips_single_stack, e, t) (discover_address-Ends _ ms)
          ]
        ]

    by_policy-Ends :
        (policy : Option IpFamilyPolicy) (families : List IpFamily) (ms : Managers N)
        (pools : Pools)
        → Ends (by_policy N req policy families ms pools).1
    by_policy-Ends none families ms pools = single_stack-Ends pools families ms
    by_policy-Ends (some single_stack) families ms pools = single_stack-Ends pools families ms
    by_policy-Ends (some prefer_dual_stack) families ms pools = dual_stack-Ends pools _ families ms
    by_policy-Ends (some require_dual_stack) families ms pools = dual_stack-Ends pools _ families ms
    by_policy-Ends (some (other_policy x)) families ms pools = dual_stack-Ends pools _ families ms

    -- The search for the addresses of a service returns, for every pool, policy, list of families
    -- and manager: the loops over the ranges of a pool leave before their fuel runs out, if the
    -- sets of addresses are as documented and building one does not fail in that way itself.
    pub discover_vips-Ends :
        (pool : String) (policy : Option IpFamilyPolicy) (families : List IpFamily)
        (ms : Managers N)
        → (discover_vips N req pool policy families ms).1 ≢ err diverged
    unfolding discover_vips
    discover_vips-Ends pool policy families ms = elim (Bool-cases (str_eq pool dhcp_pool)) [
      | inl e ↦ rw (discover_vips, e) (λ h. cc)
      | inr e ↦ elim (Bool-cases (is_empty pool)) [
        | inl none_given ↦ rw (discover_vips, e, none_given) (λ h. cc)
        | inr given ↦ elim (Result-cases (split_pool N pool)) [
          | inl (pools, s) ↦
              rw (discover_vips, e, given, s) (by_policy-Ends policy families ms pools)
          | inr (failure, s) ↦
              rw (discover_vips, e, given, s) (err-Ends (subst Ends s (split_pool-Ends pool)))
        ]
      ]
    ]
