-- ===== src/Ipam/Manager/Entries.antt =====
-- The entries that the manager of pkg/ipam/ipam.go keeps after a history of calls.
use kube_vip_cloud_provider.Prelude.{
  String, ◌≡◌, refl, sym, ap, subst, ◌≢◌, ◌⊎◌, inl, inr, true, Option, none, some, List, [], ◌∷◌,
  ◌++◌, str_eq, eq_iff, Bool-cases, Option-cases, Any, Result, Result-cases,
}
use kube_vip_cloud_provider.Netipx.{Netipx}
use kube_vip_cloud_provider.Config.{KubevipLbConfig}
use kube_vip_cloud_provider.Ipam.AddressBuilder.{build_hosts_from_cidr, build_addresses_from_range}
use kube_vip_cloud_provider.Ipam.Manager.{
  IpManager, use_range, use_cidr, at_namespace, find_available_host_from_range,
  find_available_host_from_cidr,
}
use kube_vip_cloud_provider.Ipam.Manager.Calls.{
  Kind, of_range, of_cidr, Call, call_host, after_calls,
}

-- The text is one of the list.
abbrev pub IsIn : String → List String → Type 0
IsIn s = Any (λ t. t ≡ s)

-- No text stands twice in the list.
abbrev pub IsDistinct : List String → Type 0
IsDistinct [] = Unit {0}
IsDistinct (s ∷ ss) = (¬ IsIn s ss) × IsDistinct ss

IsIn-snoc : {t s : String} (ss : List String) → IsIn t (ss ++ s ∷ []) → IsIn t ss ⊎ (t ≡ s)
IsIn-snoc [] (inl e) = inr (sym e)
IsIn-snoc [] (inr h) = absurd h
IsIn-snoc (x ∷ xs) (inl e) = inl (inl e)
IsIn-snoc (x ∷ xs) (inr h) = elim (IsIn-snoc xs h) [ inl m ↦ inl (inr m) | inr e ↦ inr e ]

snoc-IsDistinct :
    (ss : List String) (s : String) → IsDistinct ss → ¬ IsIn s ss → IsDistinct (ss ++ s ∷ [])
snoc-IsDistinct [] s d new = (λ h. h, tt)
snoc-IsDistinct (t ∷ ss) s d new = (
  λ h. elim (IsIn-snoc ss h) [ inl old ↦ d.0 old | inr same ↦ new (inl same) ],
  snoc-IsDistinct ss s d.1 (λ h. new (inr h)),
)

module _ (N : Netipx) where
  -- The namespaces of the entries, in their order.
  abbrev pub namespaces : List (IpManager N) → List String
  namespaces [] = []
  namespaces (m ∷ ms) = m.namespace ∷ namespaces ms

  -- A call leaves the namespaces as they are, or it adds its own, which has no entry yet, at the end.
  abbrev Indexes : String → List String → List String → Type 0
  Indexes namespace before after =
      (after ≡ before) ⊎ ((after ≡ before ++ namespace ∷ []) × (¬ IsIn namespace before))

  -- Where a namespace has an entry, its use changes no namespace; where it has none, no entry is used.
  abbrev Located :
      String → List (IpManager N) → Option (List (IpManager N) × Result String) → Type 0
  Located namespace ms none = ¬ IsIn namespace (namespaces ms)
  Located namespace ms (some (ms', r)) = namespaces ms' ≡ namespaces ms

  behind :
      (namespace : String) (m : IpManager N) (ms : List (IpManager N))
      (o : Option (List (IpManager N) × Result String))
      → m.namespace ≢ namespace
      → Located namespace ms o
      → Located namespace (m ∷ ms) (elim o [ none ↦ none | some (ms', r') ↦ some (m ∷ ms', r') ])
  behind namespace m ms none other h = λ i. elim i [ inl e ↦ other e | inr j ↦ h j ]
  behind namespace m ms (some (ms', r')) other h = ap (λ ns. m.namespace ∷ ns) h

  at_namespace-Located :
      (namespace : String) (f : IpManager N → IpManager N × Result String)
      → ((m : IpManager N) → (f m).0.namespace ≡ m.namespace)
      → (ms : List (IpManager N)) → Located namespace ms (at_namespace N namespace f ms)
  unfolding at_namespace
  at_namespace-Located namespace f keeps [] = λ h. h
  at_namespace-Located namespace f keeps (m ∷ ms) =
      elim (Bool-cases (str_eq m.namespace namespace)) [
        | inl here ↦ rw here (ap (λ n. n ∷ namespaces ms) (keeps m))
        | inr there ↦ rw there (
            behind namespace m ms _
              (λ e. cc (
                let q : str_eq m.namespace namespace ≡ true = (eq_iff m.namespace namespace).1 e in
                q))
              (at_namespace-Located namespace f keeps ms))
      ]

  use_range-namespace :
      (namespace pool : String) (in_use : N.IPSet) (c : Option KubevipLbConfig) (m : IpManager N)
      → (use_range N namespace pool in_use c m).0.namespace ≡ m.namespace
  unfolding use_range
  use_range-namespace namespace pool in_use c m = elim (Bool-cases (str_eq m.ip_range pool)) [
    | inl same ↦ rw same refl
    | inr differs ↦ elim (Result-cases (build_addresses_from_range N pool)) [
      | inl (set, e) ↦ rw (differs, e) refl
      | inr (failure, e) ↦ rw (differs, e) refl
    ]
  ]

  use_cidr-namespace :
      (namespace pool : String) (in_use : N.IPSet) (c : Option KubevipLbConfig) (m : IpManager N)
      → (use_cidr N namespace pool in_use c m).0.namespace ≡ m.namespace
  unfolding use_cidr
  use_cidr-namespace namespace pool in_use c m = elim (Bool-cases (str_eq m.cidr pool)) [
    | inl same ↦ rw same refl
    | inr differs ↦ elim (Result-cases (build_hosts_from_cidr N pool c)) [
      | inl (set, e) ↦ rw (differs, e) refl
      | inr (failure, e) ↦ rw (differs, e) refl
    ]
  ]

  namespaces_snoc :
      (ms : List (IpManager N)) (m : IpManager N)
      → namespaces (ms ++ m ∷ []) ≡ namespaces ms ++ m.namespace ∷ []
  namespaces_snoc [] m = refl
  namespaces_snoc (x ∷ ms) m = ap (λ ns. x.namespace ∷ ns) (namespaces_snoc ms m)

  range-Indexes :
      (namespace pool : String) (in_use : N.IPSet) (c : Option KubevipLbConfig)
      (ms : List (IpManager N))
      → Indexes namespace
          (namespaces ms)
          (namespaces (find_available_host_from_range N namespace pool in_use c ms).0)
  unfolding find_available_host_from_range
  range-Indexes namespace pool in_use c ms =
      let located =
        at_namespace-Located namespace (use_range N namespace pool in_use c)
          (use_range-namespace namespace pool in_use c) ms in
      elim (Option-cases (at_namespace N namespace (use_range N namespace pool in_use c) ms)) [
        | inr (found, e) ↦
            rw (e, find_available_host_from_range) (inl (subst (Located namespace ms) e located))
        | inl e ↦ elim (Result-cases (build_addresses_from_range N pool)) [
          | inl (set, b) ↦
              rw (e, find_available_host_from_range, b)
                (inr (namespaces_snoc ms _, subst (Located namespace ms) e located))
          | inr (failure, b) ↦ rw (e, find_available_host_from_range, b) (inl refl)
        ]
      ]

  cidr-Indexes :
      (namespace pool : String) (in_use : N.IPSet) (c : Option KubevipLbConfig)
      (ms : List (IpManager N))
      → Indexes namespace
          (namespaces ms)
          (namespaces (find_available_host_from_cidr N namespace pool in_use c ms).0)
  unfolding find_available_host_from_cidr
  cidr-Indexes namespace pool in_use c ms =
      let located =
        at_namespace-Located namespace (use_cidr N namespace pool in_use c)
          (use_cidr-namespace namespace pool in_use c) ms in
      elim (Option-cases (at_namespace N namespace (use_cidr N namespace pool in_use c) ms)) [
        | inr (found, e) ↦
            rw (e, find_available_host_from_cidr) (inl (subst (Located namespace ms) e located))
        | inl e ↦ elim (Result-cases (build_hosts_from_cidr N pool c)) [
          | inl (set, b) ↦
              rw (e, find_available_host_from_cidr, b)
                (inr (namespaces_snoc ms _, subst (Located namespace ms) e located))
          | inr (failure, b) ↦ rw (e, find_available_host_from_cidr, b) (inl refl)
        ]
      ]

  call-Indexes :
      (ms : List (IpManager N)) (call : Call N) (k : Kind)
      → call.kind ≡ k
      → Indexes call.namespace (namespaces ms) (namespaces (call_host N ms call).0)
  unfolding call_host
  call-Indexes ms call of_range e =
      rw e (range-Indexes call.namespace call.pool call.in_use call.config ms)
  call-Indexes ms call of_cidr e =
      rw e (cidr-Indexes call.namespace call.pool call.in_use call.config ms)

  indexed-IsDistinct :
      (namespace : String) (before after : List String)
      → Indexes namespace before after
      → IsDistinct before
      → IsDistinct after
  indexed-IsDistinct namespace before after (inl same) d = rw same d
  indexed-IsDistinct namespace before after (inr (longer, new)) d =
      rw longer (snoc-IsDistinct before namespace d new)

  stays-IsDistinct :
      (ms : List (IpManager N)) (calls : List (Call N))
      → IsDistinct (namespaces ms)
      → IsDistinct (namespaces (after_calls N ms calls))
  unfolding after_calls
  stays-IsDistinct ms [] d = d
  stays-IsDistinct ms (call ∷ calls) d =
      stays-IsDistinct (call_host N ms call).0 calls
        (indexed-IsDistinct call.namespace _ _ (call-Indexes ms call call.kind refl) d)

  indexed-IsIn :
      (namespace : String) (before after : List String) (s : String)
      → Indexes namespace before after
      → IsIn s after
      → IsIn s before ⊎ (namespace ≡ s)
  indexed-IsIn namespace before after s (inl same) h = inl (subst (IsIn s) same h)
  indexed-IsIn namespace before after s (inr (longer, _)) h =
      elim (IsIn-snoc before (subst (IsIn s) longer h)) [ inl old ↦ inl old | inr e ↦ inr (sym e) ]

  -- The namespaces of the calls.
  abbrev pub called : List (Call N) → List String
  called [] = []
  called (call ∷ calls) = call.namespace ∷ called calls

  from_calls :
      (ms : List (IpManager N)) (calls : List (Call N)) (s : String)
      → IsIn s (namespaces (after_calls N ms calls))
      → IsIn s (namespaces ms) ⊎ IsIn s (called calls)
  unfolding after_calls
  from_calls ms [] s h = inl h
  from_calls ms (call ∷ calls) s h = elim (from_calls (call_host N ms call).0 calls s h) [
    | inr later ↦ inr (inr later)
    | inl now ↦ elim (indexed-IsIn call.namespace _ _ s (call-Indexes ms call call.kind refl) now) [
      | inl old ↦ inl old
      | inr e ↦ inr (inl e)
    ]
  ]

  -- The manager keeps at most one entry for each namespace that was asked for: no history of calls,
  -- failed ones included, gives a namespace a second entry, and each entry is for a namespace that
  -- had one before the calls or for one of which a call was made.
  pub after_calls-IsDistinct :
      (ms : List (IpManager N)) (calls : List (Call N))
      → IsDistinct (namespaces ms)
      → IsDistinct (namespaces (after_calls N ms calls))
        × ((s : String)
            → IsIn s (namespaces (after_calls N ms calls))
            → IsIn s (namespaces ms) ⊎ IsIn s (called calls))
  after_calls-IsDistinct ms calls d = (stays-IsDistinct ms calls d, from_calls ms calls)
