-- ===== src/Ipam/Manager/Cache.antt =====
-- The pools that the manager keeps, against pools that are built anew for each call.
use mathlib.Core.Path.{ap₂}
use kube_vip_cloud_provider.Prelude.{
  String, ◌≡◌, refl, sym, ap, ◌∙◌, subst, inl, inr, Bool, true, false, Option, none, some, List, [],
  ◌∷◌, ◌++◌, map, str_eq, eq_iff, Bool-cases, Option-cases, All, Result, ◌>>=◌, Result-cases,
  out_of_ips, ok,
}
use kube_vip_cloud_provider.Netipx.{Netipx}
use kube_vip_cloud_provider.Config.{KubevipLbConfig}
use kube_vip_cloud_provider.Ipam.AddressBuilder.{
  build_hosts_from_cidr, build_addresses_from_range, skips_ends,
}
use kube_vip_cloud_provider.Ipam.Manager.{
  IpManager, allocate, use_range, use_cidr, at_namespace, find_available_host_from_range,
  find_available_host_from_cidr,
}
use kube_vip_cloud_provider.Ipam.Manager.Calls.{
  Kind, of_range, of_cidr, Call, call_host, fresh_host, call_hosts,
}
use kube_vip_cloud_provider.Ipam.Manager.Keeps.{
  build_hosts_from_cidr-skips, use_range-keeps, use_cidr-keeps,
}

module _ (N : Netipx) (kind_of : String → Kind) (skip : Bool) where
  -- The entry's pool is what its text stands for today.
  abbrev pub KindCoherent : Kind → IpManager N → Type 0
  KindCoherent of_range m = build_addresses_from_range N m.ip_range ≡ ok m.pool_ip_set
  KindCoherent of_cidr m =
      (c : Option KubevipLbConfig)
      → skips_ends c ≡ skip
      → build_hosts_from_cidr N m.cidr c ≡ ok m.pool_ip_set

  abbrev pub IsCoherent : IpManager N → Type 0
  IsCoherent m = KindCoherent (kind_of m.namespace) m

  -- The call's kind is that of its namespace, and its configuration has the fixed skip setting.
  abbrev pub IsAllowed : Call N → Type 0
  IsAllowed call = (call.kind ≡ kind_of call.namespace) × (skips_ends call.config ≡ skip)

  abbrev Outcome : Result String → Option (List (IpManager N) × Result String) → Type 0
  Outcome r none = Unit {0}
  Outcome r (some (ms, r')) = (r' ≡ r) × All IsCoherent ms

  module _ (namespace : String) (f : IpManager N → IpManager N × Result String) (r : Result String)
      (good : (m : IpManager N)
        → m.namespace ≡ namespace
        → IsCoherent m
        → ((f m).1 ≡ r) × IsCoherent (f m).0) where
    behind :
        (m : IpManager N) (o : Option (List (IpManager N) × Result String))
        → IsCoherent m
        → Outcome r o
        → Outcome r (elim o [ none ↦ none | some (ms', r') ↦ some (m ∷ ms', r') ])
    behind m none h k = tt
    behind m (some (ms', r')) h k = (k.0, (h, k.1))

    at_namespace-Outcome :
        (ms : List (IpManager N)) → All IsCoherent ms → Outcome r (at_namespace N namespace f ms)
    unfolding at_namespace
    at_namespace-Outcome [] h = tt
    at_namespace-Outcome (m ∷ ms) h = elim (Bool-cases (str_eq m.namespace namespace)) [
      | inl here ↦
          let g = good m ((eq_iff m.namespace namespace).0 here) h.0 in rw here (g.0, (g.1, h.1))
      | inr there ↦ rw there (behind m _ h.0 (at_namespace-Outcome ms h.1))
    ]

  -- The kind of the entry's namespace is known.
  of_kind :
      (k : Kind) (m : IpManager N) (namespace : String)
      → m.namespace ≡ namespace
      → k ≡ kind_of namespace
      → IsCoherent m
      → KindCoherent k m
  of_kind k m namespace at_ns e h = subst (λ j. KindCoherent j m) (ap kind_of at_ns ∙ sym e) h

  to_kind :
      (k : Kind) (m : IpManager N) (namespace : String)
      → m.namespace ≡ namespace
      → k ≡ kind_of namespace
      → KindCoherent k m
      → IsCoherent m
  to_kind k m namespace at_ns e h = subst (λ j. KindCoherent j m) (e ∙ sym (ap kind_of at_ns)) h

  All-append_one :
      (ms : List (IpManager N)) (m : IpManager N)
      → All IsCoherent ms
      → IsCoherent m
      → All IsCoherent (ms ++ m ∷ [])
  All-append_one [] m h k = (k, tt)
  All-append_one (x ∷ ms) m h k = (h.0, All-append_one ms m h.1 k)

  module _ (ms : List (IpManager N)) (good : All IsCoherent ms) where
    -- A call for a range.
    range_call :
        (namespace pool : String) (in_use : N.IPSet) (c : Option KubevipLbConfig)
        → of_range ≡ kind_of namespace
        → let r = find_available_host_from_range N namespace pool in_use c ms in
          (r.1 ≡ (
            build_addresses_from_range N pool
            >>= allocate N (out_of_ips namespace pool false) in_use c))
          × All IsCoherent r.0
    unfolding find_available_host_from_range
    range_call namespace pool in_use c k =
        elim (Option-cases (at_namespace N namespace (use_range N namespace pool in_use c) ms)) [
          | inr (found, e) ↦ rw (e, find_available_host_from_range) (subst (Outcome _) e known)
          | inl e ↦ elim (Result-cases (build_addresses_from_range N pool)) [
            | inl (set, b) ↦
                rw (e, find_available_host_from_range, b)
                  (refl, All-append_one ms _ good (to_kind of_range _ namespace refl k b))
            | inr (failure, b) ↦ rw (e, find_available_host_from_range, b) (refl, good)
          ]
        ]
      where
        known :
            Outcome
              (build_addresses_from_range N pool
                >>= allocate N (out_of_ips namespace pool false) in_use c)
              (at_namespace N namespace (use_range N namespace pool in_use c) ms)
        known =
            at_namespace-Outcome namespace (use_range N namespace pool in_use c) _
              (λ m at_ns h.
                let u =
                  use_range-keeps N namespace pool in_use c m
                    (of_kind of_range m namespace at_ns k h) in
                (u.0, to_kind of_range _ namespace (u.2 ∙ at_ns) k u.1))
              ms good

    -- A call for a CIDR.
    cidr_call :
        (namespace pool : String) (in_use : N.IPSet) (c : Option KubevipLbConfig)
        → of_cidr ≡ kind_of namespace
        → skips_ends c ≡ skip
        → let r = find_available_host_from_cidr N namespace pool in_use c ms in
          (r.1 ≡ (
            build_hosts_from_cidr N pool c
            >>= allocate N (out_of_ips namespace pool true) in_use c))
          × All IsCoherent r.0
    unfolding find_available_host_from_cidr
    cidr_call namespace pool in_use c k now =
        elim (Option-cases (at_namespace N namespace (use_cidr N namespace pool in_use c) ms)) [
          | inr (found, e) ↦ rw (e, find_available_host_from_cidr) (subst (Outcome _) e known)
          | inl e ↦ elim (Result-cases (build_hosts_from_cidr N pool c)) [
            | inl (set, b) ↦
                rw (e, find_available_host_from_cidr, b)
                  (
                    refl,
                    All-append_one ms _ good (
                        to_kind of_cidr _ namespace refl k
                          (λ d j. build_hosts_from_cidr-skips N pool d c (j ∙ sym now) ∙ b)),
                  )
            | inr (failure, b) ↦ rw (e, find_available_host_from_cidr, b) (refl, good)
          ]
        ]
      where
        known :
            Outcome
              (build_hosts_from_cidr N pool c
                >>= allocate N (out_of_ips namespace pool true) in_use c)
              (at_namespace N namespace (use_cidr N namespace pool in_use c) ms)
        known =
            at_namespace-Outcome namespace (use_cidr N namespace pool in_use c) _
              (λ m at_ns h.
                let u =
                  use_cidr-keeps N skip namespace pool in_use c m now
                    (of_kind of_cidr m namespace at_ns k h) in
                (u.0, to_kind of_cidr _ namespace (u.2 ∙ at_ns) k u.1))
              ms good

  by_kind :
      (k : Kind) (ms : List (IpManager N)) (call : Call N)
      → call.kind ≡ k
      → All IsCoherent ms
      → IsAllowed call
      → ((call_host N ms call).1 ≡ fresh_host N call) × All IsCoherent (call_host N ms call).0
  unfolding call_host fresh_host
  by_kind of_range ms call e good (k, now) =
      rw e (range_call ms good call.namespace call.pool call.in_use call.config (sym e ∙ k))
  by_kind of_cidr ms call e good (k, now) =
      rw e (cidr_call ms good call.namespace call.pool call.in_use call.config (sym e ∙ k) now)

  -- From pools that are up to date an allowed call returns what it would return with the pool built
  -- anew, and leaves all pools up to date.
  pub call_host-IsCoherent :
      (ms : List (IpManager N)) (call : Call N)
      → All IsCoherent ms
      → IsAllowed call
      → ((call_host N ms call).1 ≡ fresh_host N call) × All IsCoherent (call_host N ms call).0
  call_host-IsCoherent ms call = by_kind call.kind ms call refl

  from_coherent :
      (ms : List (IpManager N)) (calls : List (Call N))
      → All IsCoherent ms
      → All IsAllowed calls
      → call_hosts N ms calls ≡ map (fresh_host N) calls
  unfolding call_hosts
  from_coherent ms [] good h = refl
  from_coherent ms (call ∷ calls) good h =
      let step = call_host-IsCoherent ms call good h.0 in
      ap₂ ◌∷◌ step.0 (from_coherent (call_host N ms call).0 calls step.1 h.1)

  -- The pools that the manager keeps never show in its results: any history of calls, from the
  -- empty manager on, returns what the calls return with the pools built anew each time, as long as
  -- each namespace is asked for pools of one kind only and `skip-end-ips-in-cidr` stays as it is.
  pub call_hosts-eq-fresh_host :
      (calls : List (Call N))
      → All IsAllowed calls
      → call_hosts N [] calls ≡ map (fresh_host N) calls
  call_hosts-eq-fresh_host calls h = from_coherent [] calls tt h
