-- ===== src/Provider/Sharing/Marked.antt =====
-- What each implemented service leaves in the port map that mapImplementedServices makes.
use kube_vip_cloud_provider.Prelude.{
  >>=-eq-ok, String, ◌≡◌, refl, sym, ap, subst, ◌⊎◌, inl, inr, true, Option, none, some, List, [],
  ◌∷◌, All, Any, Result-cases, ok, err,
}
use kube_vip_cloud_provider.Netip.{Addr, is4}
use kube_vip_cloud_provider.Netip.Print.{addr_string}
use kube_vip_cloud_provider.Netipx.{Netipx}
use kube_vip_cloud_provider.Kube.{Service, ServicePort}
use kube_vip_cloud_provider.Kube.GoMap.{lookup}
use kube_vip_cloud_provider.Provider.Sharing.{
  add_annotated, loadbalancer_ips_annotation, parse_addr_list, note_ports, Implemented, add_addrs,
  add_service, add_services,
}
use kube_vip_cloud_provider.Provider.Sharing.Ports.{Marks, Marks-note_ports, note_ports-Marks}

-- The service's annotation names the IPv4 address whose text is `ip`.
abbrev pub Uses : Service → String → Type 0
Uses svc ip =
    (ips : String) × (addrs : List Addr) × (lookup loadbalancer_ips_annotation svc.annotations
      ≡ some ips)
    × (parse_addr_list ips ≡ ok addrs)
    × Any (λ a. (is4 a ≡ true) × (addr_string a ≡ ip)) addrs

module _ (N : Netipx) where
  Marks-add_addrs :
      (ip : String) (ps qs : List ServicePort) (addrs : List Addr) (i : Implemented N)
      → Marks ps ip i.port_map
      → Marks ps ip (add_addrs N true qs addrs i).port_map
  unfolding add_addrs
  Marks-add_addrs ip ps qs [] i h = h
  Marks-add_addrs ip ps qs (a ∷ addrs) i h =
      Marks-add_addrs ip ps qs addrs _ (Marks-note_ports ip ps qs true a i.port_map h)

  add_addrs-Marks :
      (ip : String) (ps : List ServicePort) (addrs : List Addr) (i : Implemented N)
      → Any (λ a. (is4 a ≡ true) × (addr_string a ≡ ip)) addrs
      → Marks ps ip (add_addrs N true ps addrs i).port_map
  unfolding add_addrs
  add_addrs-Marks ip ps [] i h = absurd h
  add_addrs-Marks ip ps (a ∷ addrs) i (inl h) = Marks-add_addrs ip ps ps addrs _ (
      subst (λ t. Marks ps t (note_ports true ps a i.port_map)) h.1
        (note_ports-Marks ps a i.port_map h.0))
  add_addrs-Marks ip ps (a ∷ addrs) i (inr h) = add_addrs-Marks ip ps addrs _ h

  -- What one service does to the port map.
  pub add_annotated_cases :
      (ps : List ServicePort) (o : Option String) (i j : Implemented N)
      → add_annotated N true ps o i ≡ ok j
      → ((o ≡ none) × (j ≡ i))
        ⊎ ((ips : String) × (addrs : List Addr) × (o ≡ some ips)
            × (parse_addr_list ips ≡ ok addrs)
            × (j ≡ add_addrs N true ps addrs i))
  unfolding add_annotated
  add_annotated_cases ps none i j e = inl (refl, cc)
  add_annotated_cases ps (some ips) i j e = elim (Result-cases (parse_addr_list ips)) [
    | inl (addrs, p) ↦
        inr
          (ips, addrs, refl, p, (let q : ok (add_addrs N true ps addrs i) ≡ ok j = rw p at e in cc))
    | inr (x, p) ↦ absurd (let q : err x ≡ ok j = rw p at e in cc)
  ]

  module _ (ip : String) where
    Marks-add_annotated :
        (ps qs : List ServicePort) (o : Option String) (i j : Implemented N)
        → add_annotated N true qs o i ≡ ok j
        → Marks ps ip i.port_map
        → Marks ps ip j.port_map
    Marks-add_annotated ps qs o i j e h = elim (add_annotated_cases qs o i j e) [
      | inl (_, same) ↦ subst (λ (t : Implemented N). Marks ps ip t.port_map) (sym same) h
      | inr (ips, addrs, _, _, new) ↦
          subst (λ (t : Implemented N). Marks ps ip t.port_map) (sym new)
            (Marks-add_addrs ip ps qs addrs i h)
    ]

    add_annotated-Marks :
        (svc : Service) (i j : Implemented N)
        → add_annotated N true svc.ports (lookup loadbalancer_ips_annotation svc.annotations) i
          ≡ ok j
        → Uses svc ip
        → Marks svc.ports ip j.port_map
    add_annotated-Marks svc i j e (ips, addrs, found, parsed, h) =
        elim (add_annotated_cases svc.ports _ i j e) [
          | inl (missing, _) ↦ absurd (cc)
          | inr (ips', addrs', found', parsed', new) ↦
              let same : ips ≡ ips' = cc in
              let addrs_same : addrs ≡ addrs' = cc (ap parse_addr_list same) in
              subst (λ (t : Implemented N). Marks svc.ports ip t.port_map) (sym new)
                (add_addrs-Marks ip svc.ports addrs' i (subst (Any _) addrs_same h))
        ]

    Marks-add_services :
        (ps : List ServicePort) (svcs : List Service) (i j : Implemented N)
        → add_services N true svcs i ≡ ok j
        → Marks ps ip i.port_map
        → Marks ps ip j.port_map
    unfolding add_services add_service
    Marks-add_services ps [] i j e h =
        subst (λ (t : Implemented N). Marks ps ip t.port_map) (let q : i ≡ j = cc in q) h
    Marks-add_services ps (svc ∷ svcs) i j e h =
        let (k, first, rest) =
          >>=-eq-ok
            (add_annotated N true svc.ports (lookup loadbalancer_ips_annotation svc.annotations) i)
            (add_services N true svcs) e in
        Marks-add_services ps svcs k j rest (
          Marks-add_annotated ps svc.ports (lookup loadbalancer_ips_annotation svc.annotations) i k
            first h)

    pub add_services-Marks :
        (svcs : List Service) (i j : Implemented N)
        → add_services N true svcs i ≡ ok j
        → All (λ (svc : Service). Uses svc ip → Marks svc.ports ip j.port_map) svcs
    unfolding add_services add_service
    add_services-Marks [] i j e = tt
    add_services-Marks (svc ∷ svcs) i j e =
        let (k, first, rest) =
          >>=-eq-ok
            (add_annotated N true svc.ports (lookup loadbalancer_ips_annotation svc.annotations) i)
            (add_services N true svcs) e in
        (
          (λ u. Marks-add_services svc.ports svcs k j rest (add_annotated-Marks svc i k first u)),
          add_services-Marks svcs k j rest,
        )
