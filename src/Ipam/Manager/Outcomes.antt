-- ===== src/Ipam/Manager/Outcomes.antt =====
-- What every call of the manager of pkg/ipam/ipam.go returns, from what an allocation returns and
-- from what a failure to build a pool returns.
use kube_vip_cloud_provider.Prelude.{
  String, ◌≡◌, subst, inl, inr, Bool, true, false, Option, none, some, List, [], ◌∷◌, str_eq,
  Bool-cases, Option-cases, GoError, Result, Result-cases, out_of_ips, err,
}
use kube_vip_cloud_provider.Netipx.{Netipx}
use kube_vip_cloud_provider.Config.{KubevipLbConfig}
use kube_vip_cloud_provider.Ipam.AddressBuilder.{build_hosts_from_cidr, build_addresses_from_range}
use kube_vip_cloud_provider.Ipam.Manager.{
  IpManager, allocate, use_range, use_cidr, at_namespace, find_available_host_from_range,
  find_available_host_from_cidr,
}

module _ (N : Netipx) (P : Result String → Type 0) where
  abbrev Found : Option (List (IpManager N) × Result String) → Type 0
  Found none = Unit {0}
  Found (some (ms, r)) = P r

  behind :
      (m : IpManager N) (o : Option (List (IpManager N) × Result String))
      → Found o
      → Found (elim o [ none ↦ none | some (ms', r') ↦ some (m ∷ ms', r') ])
  behind m none h = tt
  behind m (some (ms', r')) h = h

  at_namespace-Found :
      (namespace : String) (f : IpManager N → IpManager N × Result String) (ms : List (IpManager N))
      → ((m : IpManager N) → P (f m).1)
      → Found (at_namespace N namespace f ms)
  unfolding at_namespace
  at_namespace-Found namespace f [] h = tt
  at_namespace-Found namespace f (m ∷ ms) h = elim (Bool-cases (str_eq m.namespace namespace)) [
    | inl here ↦ rw here (h m)
    | inr there ↦ rw there (behind m _ (at_namespace-Found namespace f ms h))
  ]

  -- An allocation from any pool, for the request.
  abbrev pub Allocated : N.IPSet → Option KubevipLbConfig → Type 0
  Allocated in_use c =
      (namespace text : String) (is_cidr : Bool) (pool : N.IPSet)
      → P (allocate N (out_of_ips namespace text is_cidr) in_use c pool)

  module _ (in_use : N.IPSet) (c : Option KubevipLbConfig) (allocated : Allocated in_use c) where
    module _ (namespace pool : String) where
      -- A range, if an item that cannot be read gives such a result.
      module _
          (unread : (e : GoError) → build_addresses_from_range N pool ≡ err e → P (err e)) where
        use_range-outcome : (m : IpManager N) → P (use_range N namespace pool in_use c m).1
        unfolding use_range
        use_range-outcome m = elim (Bool-cases (str_eq m.ip_range pool)) [
          | inl same ↦ rw same (allocated namespace pool false m.pool_ip_set)
          | inr differs ↦ elim (Result-cases (build_addresses_from_range N pool)) [
            | inl (set, e) ↦ rw (differs, e) (allocated namespace pool false set)
            | inr (failure, e) ↦ rw (differs, e) (unread failure e)
          ]
        ]

        pub range-outcome :
            (ms : List (IpManager N))
            → P (find_available_host_from_range N namespace pool in_use c ms).1
        unfolding find_available_host_from_range
        range-outcome ms =
            elim (Option-cases
              (at_namespace N namespace (use_range N namespace pool in_use c) ms)) [
                | inr (found, e) ↦
                    rw (e, find_available_host_from_range)
                      (subst Found e (at_namespace-Found namespace _ ms use_range-outcome))
                | inl e ↦ elim (Result-cases (build_addresses_from_range N pool)) [
                  | inl (set, b) ↦
                      rw (e, find_available_host_from_range, b) (allocated namespace pool false set)
                  | inr (failure, b) ↦ rw (e, find_available_host_from_range, b) (unread failure b)
                ]
              ]

      module _ (unread : (e : GoError) → build_hosts_from_cidr N pool c ≡ err e → P (err e)) where
        use_cidr-outcome : (m : IpManager N) → P (use_cidr N namespace pool in_use c m).1
        unfolding use_cidr
        use_cidr-outcome m = elim (Bool-cases (str_eq m.cidr pool)) [
          | inl same ↦ rw same (allocated namespace pool true m.pool_ip_set)
          | inr differs ↦ elim (Result-cases (build_hosts_from_cidr N pool c)) [
            | inl (set, e) ↦ rw (differs, e) (allocated namespace pool true set)
            | inr (failure, e) ↦ rw (differs, e) (unread failure e)
          ]
        ]

        pub cidr-outcome :
            (ms : List (IpManager N))
            → P (find_available_host_from_cidr N namespace pool in_use c ms).1
        unfolding find_available_host_from_cidr
        cidr-outcome ms =
            elim (Option-cases (at_namespace N namespace (use_cidr N namespace pool in_use c) ms)) [
              | inr (found, e) ↦
                  rw (e, find_available_host_from_cidr)
                    (subst Found e (at_namespace-Found namespace _ ms use_cidr-outcome))
              | inl e ↦ elim (Result-cases (build_hosts_from_cidr N pool c)) [
                | inl (set, b) ↦
                    rw (e, find_available_host_from_cidr, b) (allocated namespace pool true set)
                | inr (failure, b) ↦ rw (e, find_available_host_from_cidr, b) (unread failure b)
              ]
            ]
