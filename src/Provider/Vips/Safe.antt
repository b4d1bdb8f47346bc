-- ===== src/Provider/Vips/Safe.antt =====
-- What the addresses are that discoverVIPs of pkg/provider/loadBalancer.go returns.
use kube_vip_cloud_provider.Prelude.{
  ℕ, zero, suc, ◌≤◌, String, ◌≡◌, refl, ◌⊎◌, inl, inr, true, false, ◌&&◌, ◌||◌, Option, none, some,
  List, [], ◌∷◌, ◌++◌, arith, str_eq, Bool-cases, contains_byte, is_empty, join, length, All,
  GoError, Result, Result-cases, err, ok,
}
use kube_vip_cloud_provider.Netipx.{Netipx, SetLaws}
use kube_vip_cloud_provider.Kube.{
  IpFamily, IpFamilyPolicy, other_policy, single_stack, prefer_dual_stack, require_dual_stack,
}
use kube_vip_cloud_provider.Ipam.Families.{Pools}
use kube_vip_cloud_provider.Ipam.Manager.Safe.{IsHandedOut, range-IsHandedOut, cidr-IsHandedOut}
use kube_vip_cloud_provider.Provider.Vips.{
  Request, Managers, Step, append_vip, vip_from_pool, discover_from_pool, dhcp_pool,
  discover_address, dual_result, after_primary, after_secondary, requires_both, single_pool,
  takes_preferred, split_pool, by_policy, discover_vips_single_stack, discover_vips_dual_stack,
  discover_vips,
}

-- How many addresses a service can have.
abbrev pub most_vips : Option IpFamilyPolicy → ℕ
most_vips none = 1
most_vips (some single_stack) = 1
most_vips (some _) = 2

module _ (N : Netipx) (L : SetLaws N) (req : Request N) where
  -- DHCP's address, the shared address that the caller prefers, or one that the manager hands out.
  abbrev pub IsVip : String → Type 0
  IsVip vip =
      (vip ≡ "0.0.0.0")
      ⊎ ((vip ≡ req.preferred_ipv4) × (is_empty req.preferred_ipv4 ≡ false))
      ⊎ IsHandedOut N req.in_use (ok vip)

  abbrev VipIfAny : Result String → Type 0
  VipIfAny (ok vip) = IsVip vip
  VipIfAny (err e) = Unit {0}

  -- A text that lists such addresses, `n` of them at most, or a failure.
  abbrev pub VipsIfAny : ℕ → Result String → Type 0
  VipsIfAny n (ok text) =
      (vips : List String) × (text ≡ join "," vips) × All IsVip vips × (length vips ≤ n)
  VipsIfAny n (err e) = Unit {0}

  handed_out : (r : Result String) → IsHandedOut N req.in_use r → VipIfAny r
  handed_out (ok vip) h = inr (inr h)
  handed_out (err e) h = tt

  discover_address-IsVip :
      (pool : String) (ms : Managers N) → VipIfAny (discover_address N req pool ms).1
  unfolding discover_address
  discover_address-IsVip pool ms = elim (Bool-cases (str_eq pool dhcp_pool)) [
    | inl e ↦ rw (discover_address, e) (inl refl)
    | inr e ↦ elim (Bool-cases (contains_byte b'/' pool)) [
      | inl c ↦
          rw (discover_address, e, c)
            (handed_out _ (cidr-IsHandedOut N L req.in_use req.namespace pool req.config ms))
      | inr c ↦
          rw (discover_address, e, c)
            (handed_out _ (range-IsHandedOut N L req.in_use req.namespace pool req.config ms))
    ]
  ]

  one_vip : (r : Result String) → VipIfAny r → VipsIfAny 1 r
  unfolding join
  one_vip (ok vip) h = (vip ∷ [], refl, (h, tt), omega arith)
  one_vip (err e) h = tt

  one_policy_vip :
      (policy : Option IpFamilyPolicy) {vip : String}
      → IsVip vip
      → VipsIfAny (most_vips policy) (ok vip)
  unfolding join
  one_policy_vip none {vip} h = (vip ∷ [], refl, (h, tt), omega arith)
  one_policy_vip (some single_stack) {vip} h = (vip ∷ [], refl, (h, tt), omega arith)
  one_policy_vip (some prefer_dual_stack) {vip} h = (vip ∷ [], refl, (h, tt), omega arith)
  one_policy_vip (some require_dual_stack) {vip} h = (vip ∷ [], refl, (h, tt), omega arith)
  one_policy_vip (some (other_policy _)) {vip} h = (vip ∷ [], refl, (h, tt), omega arith)

  preferred-IsVip :
      (pools : Pools) (pool : String)
      → takes_preferred N req pools pool ≡ true
      → IsVip req.preferred_ipv4
  preferred-IsVip pools pool e = elim (Bool-cases (is_empty req.preferred_ipv4)) [
    | inl none_preferred ↦ elim (Bool-cases (str_eq pool pools.ipv4)) [
      | inl same ↦ cc
      | inr other ↦ cc
    ]
    | inr preferred ↦ inr (inl (refl, preferred))
  ]

  vip_from_pool-IsVip :
      (pools : Pools) (pool : String) (ms : Managers N)
      → VipIfAny (vip_from_pool N req pools pool ms).1
  unfolding vip_from_pool
  vip_from_pool-IsVip pools pool ms = elim (Bool-cases (takes_preferred N req pools pool)) [
    | inl e ↦ rw (vip_from_pool, e) (preferred-IsVip pools pool e)
    | inr e ↦ rw (vip_from_pool, e) (discover_address-IsVip pool ms)
  ]

  -- Such addresses, `n` of them at most.
  abbrev AtMost : ℕ → List String → Type 0
  AtMost n vips = All IsVip vips × (length vips ≤ n)

  snoc :
      (vips : List String) {vip : String} (n : ℕ)
      → AtMost n vips
      → IsVip vip
      → AtMost (suc n) (vips ++ vip ∷ [])
  snoc [] n h v = ((v, tt), omega arith)
  snoc (_ ∷ vips) zero ((h, hs), l) v = absurd (omega arith)
  snoc (_ ∷ vips) (suc n) ((h, hs), l) v =
      let (more, m) = snoc vips n (hs, omega arith) v in ((h, more), omega arith)

  append_vip-All :
      (vips : List String) (v : Managers N × Result String) (n : ℕ)
      → AtMost n vips
      → VipIfAny v.1
      → AtMost (suc n) (append_vip N vips v).vips
  unfolding append_vip
  append_vip-All vips (ms, ok vip) n hs h = snoc vips n hs h
  append_vip-All vips (ms, err e) n hs h = (hs.0, omega arith)

  discover_from_pool-All :
      (pools : Pools) (pool : String) (vips : List String) (ms : Managers N) (n : ℕ)
      → AtMost n vips
      → AtMost (suc n) (discover_from_pool N req pools pool vips ms).vips
  unfolding discover_from_pool
  discover_from_pool-All pools pool vips ms n hs = elim (Bool-cases (is_empty pool)) [
    | inl e ↦ rw (discover_from_pool, e) (hs.0, omega arith)
    | inr e ↦
        rw (discover_from_pool, e) (append_vip-All vips _ n hs (vip_from_pool-IsVip pools pool ms))
  ]

  dual_result-Vips :
      (policy : IpFamilyPolicy) (p p' : Option GoError) (vips : List String)
      → AtMost 2 vips
      → VipsIfAny 2 (dual_result policy p p' vips)
  unfolding dual_result
  dual_result-Vips prefer_dual_stack (some e) (some e') vips h = tt
  dual_result-Vips prefer_dual_stack (some e) none vips h = (vips, refl, h.0, h.1)
  dual_result-Vips prefer_dual_stack none p' vips h = (vips, refl, h.0, h.1)
  dual_result-Vips require_dual_stack (some e) p' vips h = tt
  dual_result-Vips require_dual_stack none (some e') vips h = tt
  dual_result-Vips require_dual_stack none none vips h = (vips, refl, h.0, h.1)
  dual_result-Vips single_stack p p' vips h = (vips, refl, h.0, h.1)
  dual_result-Vips (other_policy _) p p' vips h = (vips, refl, h.0, h.1)

  after_secondary-Vips :
      (policy : IpFamilyPolicy) (p : Option GoError) (second : Step N)
      → AtMost 2 second.vips
      → VipsIfAny 2 (after_secondary N policy p second).1
  unfolding after_secondary
  after_secondary-Vips policy p second h = elim (Result-cases second.outcome) [
    | inl (p', e) ↦ rw (after_secondary, e) (dual_result-Vips policy p p' second.vips h)
    | inr (failure, e) ↦ rw (after_secondary, e) tt
  ]

  dual_stack-Vips :
      (pools : Pools) (policy : IpFamilyPolicy) (families : List IpFamily) (first : Step N)
      → AtMost 1 first.vips
      → VipsIfAny 2 (after_primary N req pools policy families first).1
  unfolding after_primary
  dual_stack-Vips pools policy families first h = elim (Result-cases first.outcome) [
    | inl (p, e) ↦
        rw (after_primary, e)
          (after_secondary-Vips policy p _
            (discover_from_pool-All pools _ first.vips first.managers 1 h))
    | inr (failure, e) ↦ rw (after_primary, e) tt
  ]

  by_dual_stack :
      (pools : Pools) (policy : IpFamilyPolicy) (families : List IpFamily) (ms : Managers N)
      → VipsIfAny 2 (discover_vips_dual_stack N req pools policy families ms).1
  unfolding discover_vips_dual_stack
  by_dual_stack pools policy families ms =
      elim (Bool-cases (requires_both policy && (is_empty pools.ipv4 || is_empty pools.ipv6))) [
        | inl e ↦ rw (discover_vips_dual_stack, e) tt
        | inr e ↦
            rw (discover_vips_dual_stack, e)
              (dual_stack-Vips pools policy families _
                (discover_from_pool-All pools _ [] ms 0 (tt, omega arith)))
      ]

  by_single_stack :
      (pools : Pools) (families : List IpFamily) (ms : Managers N)
      → VipsIfAny 1 (discover_vips_single_stack N req pools families ms).1
  unfolding discover_vips_single_stack
  by_single_stack pools families ms = elim (Bool-cases (is_empty (single_pool pools families))) [
    | inl e ↦ rw (discover_vips_single_stack, e) tt
    | inr e ↦ elim (Bool-cases (takes_preferred N req pools (single_pool pools families))) [
      | inl t ↦
          rw (discover_vips_single_stack, e, t)
            (one_vip (ok _) (preferred-IsVip pools (single_pool pools families) t))
      | inr t ↦ rw (discover_vips_single_stack, e, t) (one_vip _ (discover_address-IsVip _ ms))
    ]
  ]

  by_policy-Vips :
      (policy : Option IpFamilyPolicy) (families : List IpFamily) (ms : Managers N) (pools : Pools)
      → VipsIfAny (most_vips policy) (by_policy N req policy families ms pools).1
  by_policy-Vips none families ms pools = by_single_stack pools families ms
  by_policy-Vips (some single_stack) families ms pools = by_single_stack pools families ms
  by_policy-Vips (some prefer_dual_stack) families ms pools = by_dual_stack pools _ families ms
  by_policy-Vips (some require_dual_stack) families ms pools = by_dual_stack pools _ families ms
  by_policy-Vips (some (other_policy x)) families ms pools = by_dual_stack pools _ families ms

  -- Whatever the pool, the policy and the families, and whatever the manager keeps: if the search
  -- succeeds, its text lists addresses, one at most for a service with no policy or of a single
  -- stack and two at most for any other, each of which is DHCP's 0.0.0.0, the preferred shared
  -- address, or the text of an address that is not in use and that no IPv4 network reserves.
  pub discover_vips-Vips :
      (pool : String) (policy : Option IpFamilyPolicy) (families : List IpFamily) (ms : Managers N)
      → VipsIfAny (most_vips policy) (discover_vips N req pool policy families ms).1
  unfolding discover_vips
  discover_vips-Vips pool policy families ms = elim (Bool-cases (str_eq pool dhcp_pool)) [
    | inl e ↦ rw (discover_vips, e) (one_policy_vip policy (inl refl))
    | inr e ↦ elim (Bool-cases (is_empty pool)) [
      | inl none_given ↦ rw (discover_vips, e, none_given) tt
      | inr given ↦ elim (Result-cases (split_pool N pool)) [
        | inl (pools, s) ↦ rw (discover_vips, e, given, s) (by_policy-Vips policy families ms pools)
        | inr (failure, s) ↦ rw (discover_vips, e, given, s) tt
      ]
    ]
  ]
