-- ===== src/Provider/Controller/Update.antt =====
-- Which changes of a service call for an update of its load balancer.
use kube_vip_cloud_provider.Prelude.{
  String, ◌≡◌, refl, ap, ◌↔◌, inl, inr, Bool, true, false, not, ◌&&◌, ◌||◌, List, [], ◌∷◌, arith,
  str_eq, ◌==◌, if◌then◌else◌, Bool-cases, length, All,
}
use kube_vip_cloud_provider.Kube.{Service}
use kube_vip_cloud_provider.Kube.GoMap.{deep_equal}
use kube_vip_cloud_provider.Provider.Controller.{
  wants_load_balancer, same_option, same_texts, ports_equal_for_lb, external_ip_changed,
  needs_update, load_balancer_ips_are_equal,
}
use kube_vip_cloud_provider.Provider.Controller.Ports.{
  same_texts_iff, same_option_iff, number_iff, text_iff, ports_equal_iff,
}

external_ip_iff :
    (xs ys : List String) → length xs ≡ length ys → (external_ip_changed xs ys ≡ false) ↔ (xs ≡ ys)
unfolding external_ip_changed
external_ip_iff [] [] l = (λ h. refl, λ h. refl)
external_ip_iff [] (y ∷ ys) l = (λ h. absurd (omega arith), λ h. refl)
external_ip_iff (x ∷ xs) [] l = (λ h. absurd (omega arith), λ h. refl)
external_ip_iff (x ∷ xs) (y ∷ ys) l = elim (Bool-cases (str_eq x y)) [
  | inl e ↦
      rw (external_ip_changed, e)
        (
          λ h.
              (let a : x ≡ y = (text_iff x y).0 e in
                let b : xs ≡ ys = (external_ip_iff xs ys (omega arith)).0 h in rw (a, b) refl),
          λ h. (external_ip_iff xs ys (omega arith)).1 cc,
        )
  | inr e ↦
      rw (external_ip_changed, e)
        (λ h. cc, λ h. absurd (cc (let q : str_eq x y ≡ true = (text_iff x y).1 cc in q)))
]

-- A list of tests that call for an update, each with the reasons that it gives.
abbrev first_true : List (Bool × List String) → Bool × List String
first_true [] = (false, [])
first_true ((b, reasons) ∷ tests) = if b then (true, reasons) else first_true tests

first_true_iff :
    (tests : List (Bool × List String))
    → ((first_true tests).0 ≡ false) ↔ All (λ t. t.0 ≡ false) tests
first_true_iff [] = (λ h. tt, λ h. refl)
first_true_iff ((true, reasons) ∷ tests) = (λ h. cc, λ h. h.0)
first_true_iff ((false, reasons) ∷ tests) =
    (λ h. (refl, (first_true_iff tests).0 h), λ h. (first_true_iff tests).1 h.1)

-- A test that something is not the same.
differs_iff : {P : Type 0} (b : Bool) → (b ≡ true) ↔ P → (not b ≡ false) ↔ P
differs_iff true p = (λ h. p.0 refl, λ x. refl)
differs_iff false p = (λ h. cc, λ x. cc (p.1 x))

-- All that a load balancer is made from is the same in both services.
pub record IsUnchanged (old new : Service) : Type 0 where
  pub source_ranges :
      wants_load_balancer new ≡ true
      → old.load_balancer_source_ranges ≡ new.load_balancer_source_ranges
  pub ports : old.ports ≡ new.ports
  pub session_affinity : old.session_affinity ≡ new.session_affinity
  pub session_affinity_config : old.session_affinity_config ≡ new.session_affinity_config
  pub load_balancer_ip : old.load_balancer_ip ≡ new.load_balancer_ip
  pub external_ips : old.external_ips ≡ new.external_ips
  pub annotations : deep_equal old.annotations new.annotations ≡ true
  pub uid : old.uid ≡ new.uid
  pub external_traffic_policy : old.external_traffic_policy ≡ new.external_traffic_policy
  pub health_check_node_port : old.health_check_node_port ≡ new.health_check_node_port
  pub ip_family_count : length old.ip_families ≡ length new.ip_families

source_ranges_iff :
    (old new : Service)
    → ((wants_load_balancer new
          && not (
              same_option same_texts old.load_balancer_source_ranges
                new.load_balancer_source_ranges))
        ≡ false)
      ↔ (wants_load_balancer new ≡ true
          → old.load_balancer_source_ranges ≡ new.load_balancer_source_ranges)
source_ranges_iff old new =
    let same =
      same_option_iff same_texts same_texts_iff old.load_balancer_source_ranges
        new.load_balancer_source_ranges in
    elim (Bool-cases (wants_load_balancer new)) [
      | inl e ↦ rw e (λ h _. (differs_iff _ same).0 h, λ h. (differs_iff _ same).1 (h refl))
      | inr e ↦ rw e (λ h k. cc, λ h. refl)
    ]

ports_and_affinity_iff :
    (old new : Service)
    → ((not (ports_equal_for_lb old new) || not (str_eq old.session_affinity new.session_affinity))
        ≡ false)
      ↔ ((old.ports ≡ new.ports) × (old.session_affinity ≡ new.session_affinity))
ports_and_affinity_iff old new = (
  λ h. ((ports_equal_iff old new).0 (ground arith), (text_iff _ _).0 (ground arith)),
  λ (p, a). ground (
    arith,
    (ports_equal_iff old new).1 p,
    (text_iff old.session_affinity new.session_affinity).1 a,
  ),
)

config_iff :
    (old new : Service)
    → (same_option
          (same_option (same_option ◌==◌))
          old.session_affinity_config
          new.session_affinity_config
        ≡ true)
      ↔ (old.session_affinity_config ≡ new.session_affinity_config)
config_iff old new =
    same_option_iff _ (same_option_iff _ (same_option_iff _ number_iff)) old.session_affinity_config
      new.session_affinity_config

-- The tests of needsUpdate, in its order.
abbrev tests : Service → Service → List (Bool × List String)
tests old new =
    (
      wants_load_balancer new
          && not (
              same_option same_texts old.load_balancer_source_ranges
                new.load_balancer_source_ranges),
      "LoadBalancerSourceRanges" ∷ [],
    )
    ∷ (
      not (ports_equal_for_lb old new) || not (str_eq old.session_affinity new.session_affinity),
      [],
    )
    ∷ (
      not (
          same_option (same_option (same_option ◌==◌)) old.session_affinity_config
            new.session_affinity_config),
      [],
    )
    ∷ (not (load_balancer_ips_are_equal old new), "LoadbalancerIP" ∷ [])
    ∷ (not (length old.external_ips == length new.external_ips), "ExternalIP" ∷ [])
    ∷ (external_ip_changed old.external_ips new.external_ips, "ExternalIP" ∷ [])
    ∷ (not (deep_equal old.annotations new.annotations), [])
    ∷ (not (str_eq old.uid new.uid), "UID" ∷ [])
    ∷ (
      not (str_eq old.external_traffic_policy new.external_traffic_policy),
      "ExternalTrafficPolicy" ∷ [],
    )
    ∷ (not (old.health_check_node_port == new.health_check_node_port), "HealthCheckNodePort" ∷ [])
    ∷ (not (length old.ip_families == length new.ip_families), "IPFamilies" ∷ [])
    ∷ []

-- What the tests say if none calls for an update.
tests-IsUnchanged :
    (old new : Service) → All (λ t. t.0 ≡ false) (tests old new) → IsUnchanged old new
tests-IsUnchanged old new
      (
        ranges,
        (
          ps,
          (config, (ip, (count, (external, (annotated, (id, (policy, (health, (families, _))))))))),
        ),
      ) =
    let (same_ports, affinity) = (ports_and_affinity_iff old new).0 ps in
    record {
      source_ranges = (source_ranges_iff old new).0 ranges;
      ports = same_ports;
      session_affinity = affinity;
      session_affinity_config = (differs_iff _ (config_iff old new)).0 config;
      load_balancer_ip = (differs_iff _ (text_iff _ _)).0 ip;
      external_ips =
          (external_ip_iff old.external_ips new.external_ips
              ((differs_iff _ (number_iff _ _)).0 count)).0
            external;
      annotations = (differs_iff _ (λ h. h, λ h. h)).0 annotated;
      uid = (differs_iff _ (text_iff _ _)).0 id;
      external_traffic_policy = (differs_iff _ (text_iff _ _)).0 policy;
      health_check_node_port = (differs_iff _ (number_iff _ _)).0 health;
      ip_family_count = (differs_iff _ (number_iff _ _)).0 families;
    }

IsUnchanged-tests :
    (old new : Service) → IsUnchanged old new → All (λ t. t.0 ≡ false) (tests old new)
IsUnchanged-tests old new u =
    let count = ap length u.external_ips in
    let a = (source_ranges_iff old new).1 u.source_ranges in
    let b = (ports_and_affinity_iff old new).1 (u.ports, u.session_affinity) in
    let c = (differs_iff _ (config_iff old new)).1 u.session_affinity_config in
    let d =
      (differs_iff _ (text_iff old.load_balancer_ip new.load_balancer_ip)).1 u.load_balancer_ip in
    let e =
      (differs_iff _ (number_iff (length old.external_ips) (length new.external_ips))).1 count in
    let f = (external_ip_iff old.external_ips new.external_ips count).1 u.external_ips in
    let g : not (deep_equal old.annotations new.annotations) ≡ false = rw u.annotations refl in
    let h = (differs_iff _ (text_iff old.uid new.uid)).1 u.uid in
    let i =
      (differs_iff _ (text_iff old.external_traffic_policy new.external_traffic_policy)).1
        u.external_traffic_policy in
    let j =
      (differs_iff _ (number_iff old.health_check_node_port new.health_check_node_port)).1
        u.health_check_node_port in
    let k =
      (differs_iff _ (number_iff (length old.ip_families) (length new.ip_families))).1
        u.ip_family_count in
    (a, (b, (c, (d, (e, (f, (g, (h, (i, (j, (k, tt)))))))))))

-- An update is called for exactly when something changed that a load balancer is made from: the
-- ports in any field, the session affinity or its configuration, the load balancer's address, the
-- external addresses, the annotations, the UID, the external traffic policy, the port of health
-- checks, the number of IP families, or, for a service of kube-vip's class, the source ranges.
pub needs_update-IsUnchanged :
    (old new : Service) → ((needs_update old new).0 ≡ false) ↔ IsUnchanged old new
unfolding needs_update
needs_update-IsUnchanged old new =
    let all_tests = first_true_iff (tests old new) in
    (λ h. tests-IsUnchanged old new (all_tests.0 h), λ u. all_tests.1 (IsUnchanged-tests old new u))
