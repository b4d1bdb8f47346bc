-- ===== src/Provider/Sharing/Used.antt =====
-- The entries of the port map that mapImplementedServices makes belong to services.
use kube_vip_cloud_provider.Prelude.{
  ℕ, String, ◌≡◌, sym, ap, ◌∙◌, subst, ◌≢◌, ◌⊎◌, inl, inr, true, none, some, List, [], ◌∷◌, str_eq,
  eq_iff, Bool-cases, Any, ◌>>=◌, >>=-eq-ok, ok,
}
use kube_vip_cloud_provider.Netip.{Addr, is4}
use kube_vip_cloud_provider.Netip.Print.{addr_string}
use kube_vip_cloud_provider.Netipx.{Netipx}
use kube_vip_cloud_provider.Kube.{Service, ServicePort}
use kube_vip_cloud_provider.Kube.GoMap.{lookup}
use kube_vip_cloud_provider.Provider.Sharing.{
  loadbalancer_ips_annotation, add_annotated, PortMap, insert_port, insert_ports, reserve_ip,
  note_ports, Implemented, add_addrs, add_service, add_services, map_implemented_services,
  discover_shared_vips,
}
use kube_vip_cloud_provider.Provider.Sharing.Ports.{
  find_ports, find_ports-insert_port, find_ports-reserve_ip,
}
use kube_vip_cloud_provider.Provider.Sharing.Marked.{Uses, add_annotated_cases}
use kube_vip_cloud_provider.Provider.Sharing.Conflict.{IsListing, chosen_entry}

-- The address has an entry.
abbrev IsPresent : String → PortMap → Type 0
IsPresent ip m = (ports : List ℕ) × (find_ports ip m ≡ some ports)

-- The IPv4 address has this text.
abbrev IsText : String → Addr → Type 0
IsText ip a = (is4 a ≡ true) × (addr_string a ≡ ip)

module _ (ip : String) where
  insert_port-IsPresent :
      (k : String) (port : ℕ) (m : PortMap)
      → IsPresent ip (insert_port k port m)
      → IsPresent ip m ⊎ (k ≡ ip)
  insert_port-IsPresent k port m (ports, e) = elim (Bool-cases (str_eq k ip)) [
    | inl same ↦ inr ((eq_iff k ip).0 same)
    | inr other ↦ inl (
      ports,
      (let q : find_ports ip (insert_port k port m) ≡ find_ports ip m =
            find_ports-insert_port k ip port m ∙ rw other in
          sym q ∙ e),
    )
  ]

  insert_ports-IsPresent :
      (k : String) (ps : List ServicePort) (m : PortMap)
      → IsPresent ip (insert_ports k ps m)
      → IsPresent ip m ⊎ (k ≡ ip)
  unfolding insert_ports
  insert_ports-IsPresent k [] m h = inl h
  insert_ports-IsPresent k (p ∷ ps) m h =
      elim (insert_ports-IsPresent k ps (insert_port k p.port m) h) [
        | inl before ↦ insert_port-IsPresent k p.port m before
        | inr same ↦ inr same
      ]

  reserve_ip-IsPresent :
      (k : String) (m : PortMap) → IsPresent ip (reserve_ip k m) → IsPresent ip m ⊎ (k ≡ ip)
  reserve_ip-IsPresent k m (ports, e) = elim (Bool-cases (str_eq k ip)) [
    | inl same ↦ inr ((eq_iff k ip).0 same)
    | inr other ↦ inl (
      ports,
      (let q : find_ports ip (reserve_ip k m) ≡ find_ports ip m =
            find_ports-reserve_ip k ip m ∙ rw other in
          sym q ∙ e),
    )
  ]

  of_key :
      (a : Addr) (m : PortMap)
      → is4 a ≡ true
      → IsPresent ip m ⊎ (addr_string a ≡ ip)
      → IsPresent ip m ⊎ IsText ip a
  of_key a m four (inl h) = inl h
  of_key a m four (inr e) = inr (four, e)

  note_ports-IsPresent :
      (ps : List ServicePort) (a : Addr) (m : PortMap)
      → IsPresent ip (note_ports true ps a m)
      → IsPresent ip m ⊎ IsText ip a
  unfolding note_ports
  note_ports-IsPresent [] a m h = elim (Bool-cases (is4 a)) [
    | inl e ↦ of_key a m e (reserve_ip-IsPresent (addr_string a) m (rw e at h))
    | inr e ↦ inl (rw e at h)
  ]
  note_ports-IsPresent (p ∷ ps) a m h = elim (Bool-cases (is4 a)) [
    | inl e ↦ of_key a m e (insert_ports-IsPresent (addr_string a) (p ∷ ps) m (rw e at h))
    | inr e ↦ inl (rw e at h)
  ]

  module _ (N : Netipx) where
    add_addrs-IsPresent :
        (ps : List ServicePort) (addrs : List Addr) (i : Implemented N)
        → IsPresent ip (add_addrs N true ps addrs i).port_map
        → IsPresent ip i.port_map ⊎ Any (IsText ip) addrs
    unfolding add_addrs
    add_addrs-IsPresent ps [] i h = inl h
    add_addrs-IsPresent ps (a ∷ addrs) i h = elim (add_addrs-IsPresent ps addrs _ h) [
      | inr there ↦ inr (inr there)
      | inl before ↦ elim (note_ports-IsPresent ps a i.port_map before) [
        | inl earlier ↦ inl earlier
        | inr here ↦ inr (inl here)
      ]
    ]

    add_annotated-IsPresent :
        (svc : Service) (i j : Implemented N)
        → add_annotated N true svc.ports (lookup loadbalancer_ips_annotation svc.annotations) i
          ≡ ok j
        → IsPresent ip j.port_map
        → IsPresent ip i.port_map ⊎ Uses svc ip
    add_annotated-IsPresent svc i j e h = elim (add_annotated_cases N svc.ports _ i j e) [
      | inl (_, same) ↦ inl (subst (λ (t : Implemented N). IsPresent ip t.port_map) same h)
      | inr (ips, addrs, found, parsed, new) ↦
          elim (add_addrs-IsPresent svc.ports addrs i
            (subst (λ (t : Implemented N). IsPresent ip t.port_map) new h)) [
              | inl before ↦ inl before
              | inr used ↦ inr (ips, addrs, found, parsed, used)
            ]
    ]

    add_services-IsPresent :
        (svcs : List Service) (i j : Implemented N)
        → add_services N true svcs i ≡ ok j
        → IsPresent ip j.port_map
        → IsPresent ip i.port_map ⊎ Any (λ (svc : Service). Uses svc ip) svcs
    unfolding add_services add_service
    add_services-IsPresent [] i j e h =
        inl (subst (λ (t : Implemented N). IsPresent ip t.port_map) (let q : j ≡ i = cc in q) h)
    add_services-IsPresent (svc ∷ svcs) i j e h =
        let (k, first, rest) =
          >>=-eq-ok
            (add_annotated N true svc.ports (lookup loadbalancer_ips_annotation svc.annotations) i)
            (add_services N true svcs) e in
        elim (add_services-IsPresent svcs k j rest h) [
          | inr there ↦ inr (inr there)
          | inl before ↦ elim (add_annotated-IsPresent svc i k first before) [
            | inl earlier ↦ inl earlier
            | inr here ↦ inr (inl here)
          ]
        ]

-- An address that has an entry in the port map of the implemented services is one that some of them
-- uses.
module _ (N : Netipx) where
  pub find_ports-Uses :
      (svcs : List Service) (in_use : N.IPSet) (m : PortMap) (ip : String) (ports : List ℕ)
      → map_implemented_services N svcs true ≡ ok (in_use, m)
      → find_ports ip m ≡ some ports
      → Any (λ (other : Service). Uses other ip) svcs
  unfolding map_implemented_services find_ports
  find_ports-Uses svcs in_use m ip ports e found =
      let start : Implemented N = record { builder = N.new_builder; port_map = [] } in
      let (i, services, rest) =
        >>=-eq-ok (add_services N true svcs start)
          (λ (i : Implemented N). N.ip_set i.builder >>= λ (s : N.IPSet). ok (s, i.port_map)) e in
      let (s, _, last) =
        >>=-eq-ok (N.ip_set i.builder) (λ (s : N.IPSet). ok (s, i.port_map)) rest in
      let same : m ≡ i.port_map = cc in
      elim (add_services-IsPresent ip N svcs start i services
        (ports, ap (find_ports ip) (sym same) ∙ found)) [
          | inl (_, none_) ↦ absurd (cc (let q : none ≡ some _ = none_ in q))
          | inr used ↦ used
        ]

  -- An address that discoverSharedVIPs picks is one that an implemented service uses.
  pub discover_shared_vips-Uses :
      (svcs : List Service) (in_use : N.IPSet) (m listing : PortMap) (svc : Service) (ip : String)
      → map_implemented_services N svcs true ≡ ok (in_use, m)
      → IsListing m listing
      → discover_shared_vips svc listing ≡ ip
      → ip ≢ ""
      → Any (λ (other : Service). Uses other ip) svcs
  discover_shared_vips-Uses svcs in_use m listing svc ip e list chosen ne =
      let (ports, found, _, _) = chosen_entry svc m listing ip list chosen ne in
      find_ports-Uses svcs in_use m ip ports e found
