-- ===== src/Provider/Vips/Dual.antt =====
-- What a dual-stack service gets from its two pools.
use kube_vip_cloud_provider.Prelude.{
  ◌∙◌, append_text, sym, true, ◌↔◌, join, Bool, String, ◌≡◌, refl, inl, inr, false, ◌&&◌, Option,
  none, some, List, [], ◌∷◌, ◌++◌, Bool-cases, is_empty, GoError, Result, out_of_ips, errorf,
  foreign, diverged, ok, err,
}
use kube_vip_cloud_provider.Netipx.{Netipx}
use kube_vip_cloud_provider.Kube.{
  IpFamily, IpFamilyPolicy, other_policy, single_stack, prefer_dual_stack, require_dual_stack,
}
use kube_vip_cloud_provider.Ipam.Families.{Pools}
use kube_vip_cloud_provider.Provider.Vips.{
  render_errors, Request, Managers, pool_outcome, append_vip, vip_from_pool, discover_from_pool,
  dual_result, primary_pool, secondary_pool, after_primary, after_secondary,
  discover_vips_dual_stack, ipv6_first, requires_both,
}

-- The result from those of the two pools, the second asked only if the first did not fail for good.
abbrev second_table : IpFamilyPolicy → Option GoError → List String → Result String → Result String
second_table policy p vips (ok b) = dual_result policy p none (vips ++ b ∷ [])
second_table policy p vips (err e) = elim (pool_outcome e) [
  | ok p' ↦ dual_result policy p p' vips
  | err e' ↦ err e'
]

abbrev first_table : IpFamilyPolicy → Result String → Result String → Result String
first_table policy (ok a) r = second_table policy none (a ∷ []) r
first_table policy (err e) r = elim (pool_outcome e) [
  | ok p ↦ second_table policy p [] r
  | err e' ↦ err e'
]

-- Both allocations gave an address, and the text lists the two, the first one first.
abbrev pub BothGiven : Result String → Result String → String → Type 0
BothGiven r r' text =
    (a : String) × (b : String) × (r ≡ ok a) × (r' ≡ ok b) × (text ≡ join "," (a ∷ b ∷ []))

-- Every address that can be had; an exhausted pool counts only if the other is exhausted too, and
-- any other failure counts at once.
abbrev pub BestEffort : Result String → Result String → Result String → Type 0
BestEffort (ok a) (ok b) r = r ≡ ok (join "," (a ∷ b ∷ []))
BestEffort (ok a) (err (out_of_ips _ _ _)) r = r ≡ ok a
BestEffort (ok a) (err e) r = r ≡ err e
BestEffort (err (out_of_ips x y z)) (err (out_of_ips x' y' z')) r =
    r
    ≡ err (
        errorf (
          append_text "could not allocate any IP address for PreferDualStack service: "
            (render_errors (some (out_of_ips x y z) ∷ some (out_of_ips x' y' z') ∷ []))))
BestEffort (err (out_of_ips _ _ _)) (ok b) r = r ≡ ok b
BestEffort (err (out_of_ips _ _ _)) (err e) r = r ≡ err e
BestEffort (err e) _ r = r ≡ err e

required_table :
    (r r' : Result String) {text : String}
    → first_table require_dual_stack r r' ≡ ok text
    → BothGiven r r' text
unfolding dual_result
required_table (ok a) (ok b) h = (a, b, refl, refl, cc)
required_table (ok a) (err (out_of_ips _ _ _)) h = cc
required_table (ok a) (err (errorf _)) h = cc
required_table (ok a) (err (foreign _)) h = cc
required_table (ok a) (err diverged) h = cc
required_table (err (out_of_ips _ _ _)) (ok b) h = cc
required_table (err (out_of_ips _ _ _)) (err (out_of_ips _ _ _)) h = cc
required_table (err (out_of_ips _ _ _)) (err (errorf _)) h = cc
required_table (err (out_of_ips _ _ _)) (err (foreign _)) h = cc
required_table (err (out_of_ips _ _ _)) (err diverged) h = cc
required_table (err (errorf _)) r h = cc
required_table (err (foreign _)) r h = cc
required_table (err diverged) r h = cc

preferred_table : (r r' : Result String) → BestEffort r r' (first_table prefer_dual_stack r r')
unfolding dual_result join
preferred_table (ok a) (ok b) = refl
preferred_table (ok a) (err (out_of_ips _ _ _)) = refl
preferred_table (ok a) (err (errorf _)) = refl
preferred_table (ok a) (err (foreign _)) = refl
preferred_table (ok a) (err diverged) = refl
preferred_table (err (out_of_ips _ _ _)) (ok b) = refl
preferred_table (err (out_of_ips _ _ _)) (err (out_of_ips _ _ _)) = refl
preferred_table (err (out_of_ips _ _ _)) (err (errorf _)) = refl
preferred_table (err (out_of_ips _ _ _)) (err (foreign _)) = refl
preferred_table (err (out_of_ips _ _ _)) (err diverged) = refl
preferred_table (err (errorf _)) r = refl
preferred_table (err (foreign _)) r = refl
preferred_table (err diverged) r = refl

never_both : (policy : IpFamilyPolicy) → (requires_both policy && false) ≡ false
never_both require_dual_stack = refl
never_both prefer_dual_stack = refl
never_both single_stack = refl
never_both (other_policy _) = refl

module _ (N : Netipx) (req : Request N) (pools : Pools) where
  -- The two allocations, one after the other.
  abbrev pub first_vip : List IpFamily → Managers N → Managers N × Result String
  first_vip families ms = vip_from_pool N req pools (primary_pool pools families) ms

  abbrev pub second_vip : List IpFamily → Managers N → Managers N × Result String
  second_vip families ms =
      vip_from_pool N req pools (secondary_pool pools families) (first_vip families ms).0

  module _ (policy : IpFamilyPolicy) (families : List IpFamily) where
    second_step :
        (p : Option GoError) (vips : List String) (v : Managers N × Result String)
        → (after_secondary N policy p (append_vip N vips v)).1 ≡ second_table policy p vips v.1
    unfolding append_vip after_secondary
    second_step p vips (ms, ok b) = refl
    second_step p vips (ms, err (out_of_ips x y z)) = refl
    second_step p vips (ms, err (errorf x)) = refl
    second_step p vips (ms, err (foreign x)) = refl
    second_step p vips (ms, err diverged) = refl

    module _ (second_there : is_empty (secondary_pool pools families) ≡ false) where
      after_first :
          (v : Managers N × Result String)
          → (after_primary N req pools policy families (append_vip N [] v)).1
            ≡ first_table policy v.1
                (vip_from_pool N req pools (secondary_pool pools families) v.0).1
      unfolding after_primary discover_from_pool append_vip
      after_first (ms, ok a) =
          rw (after_primary, discover_from_pool, second_there) (second_step none (a ∷ []) _)
      after_first (ms, err (out_of_ips x y z)) =
          rw (after_primary, discover_from_pool, second_there)
            (second_step (some (out_of_ips x y z)) [] _)
      after_first (ms, err (errorf x)) = refl
      after_first (ms, err (foreign x)) = refl
      after_first (ms, err diverged) = refl

  -- With two pools that are not empty.
  module _ (v4 : is_empty pools.ipv4 ≡ false) (v6 : is_empty pools.ipv6 ≡ false) where
    primary_there : (families : List IpFamily) → is_empty (primary_pool pools families) ≡ false
    primary_there families = elim (Bool-cases (ipv6_first families)) [
      | inl e ↦ rw e v6
      | inr e ↦ rw e v4
    ]

    secondary_there : (families : List IpFamily) → is_empty (secondary_pool pools families) ≡ false
    secondary_there families = elim (Bool-cases (ipv6_first families)) [
      | inl e ↦ rw e v4
      | inr e ↦ rw e v6
    ]

    pub dual_stack-table :
        (policy : IpFamilyPolicy) (families : List IpFamily) (ms : Managers N)
        → (discover_vips_dual_stack N req pools policy families ms).1
          ≡ first_table policy (first_vip families ms).1 (second_vip families ms).1
    unfolding discover_vips_dual_stack discover_from_pool
    dual_stack-table policy families ms =
        rw
          (
            discover_vips_dual_stack,
            v4,
            v6,
            never_both policy,
            discover_from_pool,
            primary_there families,
          )
          (after_first policy families (secondary_there families) (first_vip families ms))

    -- With a pool of each family, a PreferDualStack service gets every address that can be had:
    -- both, that of the family listed first in front; one of them, if the other pool is
    -- exhausted; an error that lists both failures, if both pools are. A failure that is not an
    -- exhausted pool is returned as it is.
    pub prefer_dual_stack-BestEffort :
        (families : List IpFamily) (ms : Managers N)
        → BestEffort
            (first_vip families ms).1
            (second_vip families ms).1
            (discover_vips_dual_stack N req pools prefer_dual_stack families ms).1
    prefer_dual_stack-BestEffort families ms =
        rw (dual_stack-table prefer_dual_stack families ms) (preferred_table _ _)

  -- The pools that RequireDualStack looks for.
  required_pools :
      (families : List IpFamily) (ms : Managers N) {text : String}
      → (discover_vips_dual_stack N req pools require_dual_stack families ms).1 ≡ ok text
      → (is_empty pools.ipv4 ≡ false) × (is_empty pools.ipv6 ≡ false)
  unfolding discover_vips_dual_stack
  required_pools families ms h = elim (Bool-cases (is_empty pools.ipv4)) [
    | inl v4 ↦ cc
    | inr v4 ↦ elim (Bool-cases (is_empty pools.ipv6)) [ inl v6 ↦ cc | inr v6 ↦ (v4, v6) ]
  ]

  -- RequireDualStack is all or nothing: the service gets a text exactly when there are a pool of
  -- IPv4 and a pool of IPv6 and both give an address, and the text then lists the two addresses,
  -- that of the service's first family in front.
  pub require_dual_stack-all_or_nothing :
      (families : List IpFamily) (ms : Managers N) (text : String)
      → ((discover_vips_dual_stack N req pools require_dual_stack families ms).1 ≡ ok text) ↔ (
          (is_empty pools.ipv4 ≡ false)
          × (is_empty pools.ipv6 ≡ false)
          × BothGiven (first_vip families ms).1 (second_vip families ms).1 text)
  unfolding dual_result
  require_dual_stack-all_or_nothing families ms text = (
    λ h.
        let (v4, v6) = required_pools families ms h in
        (v4, v6, required_table _ _ (sym (dual_stack-table v4 v6 _ families ms) ∙ h)),
    λ (v4, v6, (a, b, e, e', t)). dual_stack-table v4 v6 _ families ms ∙ rw (e, e', t) refl,
  )

  no_vip :
      (v : Managers N × Result String) {ns text : String} {is_cidr : Bool}
      → v.1 ≡ err (out_of_ips ns text is_cidr)
      → append_vip N [] v
        ≡ record { managers = v.0; vips = []; outcome = ok (some (out_of_ips ns text is_cidr)) }
  unfolding append_vip
  no_vip (ms, r) exhausted = rw exhausted refl

  -- A PreferDualStack service of a namespace that has only an IPv4 pool, all of it taken, gets the
  -- empty text and no error.
  pub prefer_dual_stack-empty_vip :
      (families : List IpFamily) (ms : Managers N) {ns text : String} {is_cidr : Bool}
      → is_empty pools.ipv4 ≡ false
      → is_empty pools.ipv6 ≡ true
      → (vip_from_pool N req pools pools.ipv4 ms).1 ≡ err (out_of_ips ns text is_cidr)
      → (discover_vips_dual_stack N req pools prefer_dual_stack families ms).1 ≡ ok ""
  unfolding discover_vips_dual_stack discover_from_pool after_primary after_secondary dual_result
      join
  prefer_dual_stack-empty_vip families ms v4 v6 exhausted =
      elim (Bool-cases (ipv6_first families)) [
        | inl e ↦
            rw
              (
                discover_vips_dual_stack,
                discover_from_pool,
                e,
                v6,
                after_primary,
                discover_from_pool,
                e,
                v4,
                v6,
                no_vip (vip_from_pool N req pools pools.ipv4 ms) exhausted,
              )
              refl
        | inr e ↦
            rw
              (
                discover_vips_dual_stack,
                discover_from_pool,
                e,
                v4,
                no_vip (vip_from_pool N req pools pools.ipv4 ms) exhausted,
                after_primary,
                discover_from_pool,
                e,
                v6,
                v4,
                no_vip (vip_from_pool N req pools pools.ipv4 ms) exhausted,
              )
              refl
      ]
