-- ===== src/Provider/Sharing/InUse.antt =====
-- The addresses in the set that mapImplementedServices builds.
use kube_vip_cloud_provider.Prelude.{
  String, ◌≡◌, refl, sym, subst, inl, inr, Bool, true, Option, none, some, List, [], ◌∷◌, ◌++◌, All,
  Any, ◌>>=◌, >>=-eq-ok, ok,
}
use kube_vip_cloud_provider.Netip.{Addr, without_zone}
use kube_vip_cloud_provider.Netipx.{Netipx, AddLaws, added}
use kube_vip_cloud_provider.Kube.{Service, ServicePort}
use kube_vip_cloud_provider.Kube.GoMap.{lookup}
use kube_vip_cloud_provider.Provider.Sharing.{
  add_annotated, loadbalancer_ips_annotation, parse_addr_list, PortMap, Implemented, add_addrs,
  add_service, add_services, map_implemented_services,
}

-- The service's annotation lists the address, with or without a zone.
abbrev pub Occupies : Service → Addr → Type 0
Occupies svc addr =
    (ips : String) × (addrs : List Addr) × (lookup loadbalancer_ips_annotation svc.annotations
      ≡ some ips)
    × (parse_addr_list ips ≡ ok addrs)
    × Any (λ a. without_zone a ≡ addr) addrs

module _ {A : Type 0} (P : A → Type 0) where
  Mem-left : (xs ys : List A) → Any P xs → Any P (xs ++ ys)
  Mem-left [] ys m = absurd m
  Mem-left (_ ∷ xs) ys (inl e) = inl e
  Mem-left (_ ∷ xs) ys (inr m) = inr (Mem-left xs ys m)

  Mem-right : (xs ys : List A) → Any P ys → Any P (xs ++ ys)
  Mem-right [] ys m = m
  Mem-right (_ ∷ xs) ys m = inr (Mem-right xs ys m)

module _ (x : Addr) (P : Addr → Type 0) where
  All-at :
      (xs : List Addr) → All (λ a. P (without_zone a)) xs → Any (λ a. without_zone a ≡ x) xs → P x
  All-at [] h m = absurd m
  All-at (_ ∷ xs) h (inl e) = subst P e h.0
  All-at (_ ∷ xs) h (inr m) = All-at xs h.1 m

module _ (N : Netipx) where
  added-++ :
      (xs ys : List Addr) (b : N.IPSetBuilder) → added N (xs ++ ys) b ≡ added N ys (added N xs b)
  added-++ [] ys b = refl
  added-++ (x ∷ xs) ys b = added-++ xs ys (N.add b x)

  builder_of_add_addrs :
      (share : Bool) (ports : List ServicePort) (addrs : List Addr) (i : Implemented N)
      → (add_addrs N share ports addrs i).builder ≡ added N addrs i.builder
  unfolding add_addrs
  builder_of_add_addrs share ports [] i = refl
  builder_of_add_addrs share ports (a ∷ addrs) i = builder_of_add_addrs share ports addrs _

  -- The addresses that the annotation of one service adds.
  annotated_builder :
      (share : Bool) (ports : List ServicePort) (o : Option String) (i j : Implemented N)
      → add_annotated N share ports o i ≡ ok j
      → (addrs : List Addr) × (j.builder ≡ added N addrs i.builder)
        × ((ips : String) → o ≡ some ips → parse_addr_list ips ≡ ok addrs)
  unfolding add_annotated
  annotated_builder share ports none i j e = let q : j ≡ i = cc in ([], rw q refl, λ ips n. cc)
  annotated_builder share ports (some ips) i j e =
      let (addrs, p, q) =
        >>=-eq-ok (parse_addr_list ips) (λ addrs. ok (add_addrs N share ports addrs i)) e in
      let r : j ≡ add_addrs N share ports addrs i = cc in
      (
        addrs,
        rw r (builder_of_add_addrs share ports addrs i),
        λ ips' n. (let s : ips' ≡ ips = cc in rw s p),
      )

  -- Every address that the service occupies is in the list.
  abbrev Listed : List Addr → Service → Type 0
  Listed addrs svc = (addr : Addr) → Occupies svc addr → Any (λ a. without_zone a ≡ addr) addrs

  All-Listed :
      (before after : List Addr) (svcs : List Service)
      → All (Listed after) svcs
      → All (Listed (before ++ after)) svcs
  All-Listed before after [] h = tt
  All-Listed before after (svc ∷ svcs) h = (
    λ addr o. Mem-right (λ a. without_zone a ≡ addr) before after (h.0 addr o),
    All-Listed before after svcs h.1,
  )

  services_builder :
      (share : Bool) (svcs : List Service) (i j : Implemented N)
      → add_services N share svcs i ≡ ok j
      → (addrs : List Addr) × (j.builder ≡ added N addrs i.builder) × All (Listed addrs) svcs
  unfolding add_services add_service
  services_builder share [] i j e = let q : j ≡ i = cc in ([], rw q refl, tt)
  services_builder share (svc ∷ svcs) i j e =
      let (mid, p, q) = >>=-eq-ok (add_service N share svc i) (add_services N share svcs) e in
      let (here, b, read) = annotated_builder share svc.ports _ i mid p in
      let (rest, b', there) = services_builder share svcs mid j q in
      (
        here ++ rest,
        rw (b', b) (sym (added-++ here rest i.builder)),
        (
          λ addr (ips, addrs, found, parsed, m).
              Mem-left (λ a. without_zone a ≡ addr) here rest
                (let s : addrs ≡ here = cc (read ips found) in
                  subst (Any (λ a. without_zone a ≡ addr)) s m),
          All-Listed here rest svcs there,
        ),
      )

  All-Contained :
      (in_use : N.IPSet) (addrs : List Addr) (svcs : List Service)
      → All (λ a. N.contains in_use (without_zone a) ≡ true) addrs
      → All (Listed addrs) svcs
      → All (λ svc. (addr : Addr) → Occupies svc addr → N.contains in_use addr ≡ true) svcs
  All-Contained in_use addrs [] h l = tt
  All-Contained in_use addrs (svc ∷ svcs) h l = (
    λ addr o. All-at addr (λ a. N.contains in_use a ≡ true) addrs h (l.0 addr o),
    All-Contained in_use addrs svcs h l.1,
  )

  -- The set of addresses in use that is built from the implemented services has every address that
  -- one of their annotations lists, without its zone, whatever the ports and whether or not addresses are shared.
  pub map_implemented_services-Contained :
      (L : AddLaws N) (svcs : List Service) (share : Bool) (in_use : N.IPSet) (m : PortMap)
      → map_implemented_services N svcs share ≡ ok (in_use, m)
      → All (λ svc. (addr : Addr) → Occupies svc addr → N.contains in_use addr ≡ true) svcs
  unfolding map_implemented_services
  map_implemented_services-Contained L svcs share in_use m e =
      let start : Implemented N = record { builder = N.new_builder; port_map = [] } in
      let (i, services, rest) =
        >>=-eq-ok (add_services N share svcs start)
          (λ (i : Implemented N). N.ip_set i.builder >>= λ (s : N.IPSet). ok (s, i.port_map)) e in
      let (s, built, last) =
        >>=-eq-ok (N.ip_set i.builder) (λ (s : N.IPSet). ok (s, i.port_map)) rest in
      let (addrs, b, listed) = services_builder share svcs start i services in
      let same : s ≡ in_use = cc in
      All-Contained in_use addrs svcs (L.add_contains addrs in_use (rw (← b, ← same) built)) listed
