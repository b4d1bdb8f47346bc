-- ===== src/Testutil/Made.antt =====
-- What NewService of pkg/testutil/service.go makes with tweaks of the package.
use kube_vip_cloud_provider.Prelude.{
  ℕ, String, ◌≡◌, refl, ap, ◌∙◌, ◌↔◌, true, Option, none, some, List, [], ◌∷◌, map, eq_iff,
}
use kube_vip_cloud_provider.Kube.{Service, ServicePort, IpFamily}
use kube_vip_cloud_provider.Provider.Controller.{loadbalancer_class, wants_load_balancer}
use kube_vip_cloud_provider.Testutil.{
  ServiceTweak, make_service_port, apply_tweaks, with_ports, with_app_protocol, new_service,
  tweak_namespace, tweak_add_etp, tweak_add_lb_ingress, tweak_add_ports, tweak_add_lb_class,
  tweak_add_finalizers, tweak_add_deletion_timestamp, tweak_add_app_protocol, tweak_set_ip_families,
  tweak_set_loadbalancer_ip, tweak_dual_stack,
}

-- The tweaks of the package, with their arguments.
pub data Tweak : Type 0 where
  of_namespace of_etp of_ingress of_app_protocol of_loadbalancer_ip : String → Tweak
  of_ports : String → ℕ → ℕ → Tweak
  of_class : Option String → Tweak
  of_finalizers : List String → Tweak
  of_deletion : ℕ → Tweak
  of_families : List IpFamily → Tweak
  of_dual_stack : Tweak

abbrev pub tweak : Tweak → ServiceTweak
tweak (of_namespace ns) = tweak_namespace ns
tweak (of_etp etp) = tweak_add_etp etp
tweak (of_ingress ip) = tweak_add_lb_ingress ip
tweak (of_app_protocol p) = tweak_add_app_protocol p
tweak (of_loadbalancer_ip ip) = tweak_set_loadbalancer_ip ip
tweak (of_ports p from to) = tweak_add_ports p from to
tweak (of_class c) = tweak_add_lb_class c
tweak (of_finalizers fs) = tweak_add_finalizers fs
tweak (of_deletion t) = tweak_add_deletion_timestamp t
tweak (of_families fs) = tweak_set_ip_families fs
tweak of_dual_stack = tweak_dual_stack

abbrev set_namespace : Tweak → String → String
set_namespace (of_namespace ns) _ = ns
set_namespace _ ns = ns

abbrev set_class : Tweak → Option String → Option String
set_class (of_class c) _ = c
set_class _ c = c

-- The namespace that is given last, and the class.
abbrev pub last_namespace : List Tweak → String → String
last_namespace [] ns = ns
last_namespace (t ∷ ts) ns = last_namespace ts (set_namespace t ns)

abbrev pub last_class : List Tweak → Option String → Option String
last_class [] c = c
last_class (t ∷ ts) c = last_class ts (set_class t c)

-- A load balancer of one port with this name, namespace and class.
abbrev pub IsMade : String → String → Option String → Service → Type 0
IsMade name namespace class s =
    (s.name ≡ name)
    × (s.namespace ≡ namespace)
    × (s.load_balancer_class ≡ class)
    × (s.type ≡ "LoadBalancer")
    × ((p : ServicePort) × (s.ports ≡ p ∷ []))

tweak-IsMade :
    (name namespace : String) (class : Option String) (t : Tweak) (s : Service)
    → IsMade name namespace class s
    → (s' : Service) × (tweak t s ≡ some s')
      × IsMade name (set_namespace t namespace) (set_class t class) s'
unfolding make_service_port
tweak-IsMade name namespace class (of_namespace ns) s (n, _, c, lb, one) =
    (_, refl, (n, refl, c, lb, one))
tweak-IsMade name namespace class (of_etp etp) s made = (_, refl, made)
tweak-IsMade name namespace class (of_ingress ip) s made = (_, refl, made)
tweak-IsMade name namespace class (of_app_protocol a) s (n, ns, c, lb, (p, one)) =
    (_, ap (λ ports. with_ports s (with_app_protocol a ports)) one, (n, ns, c, lb, (_, refl)))
tweak-IsMade name namespace class (of_loadbalancer_ip ip) s made = (_, refl, made)
tweak-IsMade name namespace class (of_ports p from to) s (n, ns, c, lb, _) =
    (_, refl, (n, ns, c, lb, (_, refl)))
tweak-IsMade name namespace class (of_class c) s (n, ns, _, lb, one) =
    (_, refl, (n, ns, refl, lb, one))
tweak-IsMade name namespace class (of_finalizers fs) s made = (_, refl, made)
tweak-IsMade name namespace class (of_deletion t) s made = (_, refl, made)
tweak-IsMade name namespace class (of_families fs) s made = (_, refl, made)
tweak-IsMade name namespace class of_dual_stack s made = (_, refl, made)

apply_tweaks-IsMade :
    (name namespace : String) (class : Option String) (ts : List Tweak) (s : Service)
    → IsMade name namespace class s
    → (s' : Service) × (apply_tweaks (map tweak ts) (some s) ≡ some s')
      × IsMade name (last_namespace ts namespace) (last_class ts class) s'
apply_tweaks-IsMade name namespace class [] s made = (s, refl, made)
apply_tweaks-IsMade name namespace class (t ∷ ts) s made =
    let (s', e, made') = tweak-IsMade name namespace class t s made in
    let (last, f, rest) =
      apply_tweaks-IsMade name (set_namespace t namespace) (set_class t class) ts s' made' in
    (last, ap (apply_tweaks (map tweak ts)) e ∙ f, rest)

wants_iff_class :
    (s : Service) (class : Option String)
    → s.load_balancer_class ≡ class
    → s.type ≡ "LoadBalancer"
    → (wants_load_balancer s ≡ true) ↔ (class ≡ some loadbalancer_class)
unfolding wants_load_balancer
wants_iff_class s none c lb = rw (wants_load_balancer, lb, c) (λ h. cc, λ h. cc)
wants_iff_class s (some t) c lb =
    rw (wants_load_balancer, lb, c)
      (λ h. ap some ((eq_iff t loadbalancer_class).0 h), λ h. (eq_iff t loadbalancer_class).1 cc)

-- With any tweaks of the package NewService returns a service and does not panic: a load balancer
-- of the name and of one port, in the namespace that is given last or else in `default`, which the
-- load balancer class controller wants exactly if the class that is given last is kube-vip's.
pub new_service-IsMade :
    (name : String) (ts : List Tweak)
    → (s : Service) × (new_service name (map tweak ts) ≡ some s)
      × IsMade name (last_namespace ts "default") (last_class ts none) s
      × ((wants_load_balancer s ≡ true) ↔ (last_class ts none ≡ some loadbalancer_class))
unfolding new_service make_service_port
new_service-IsMade name ts =
    let (s, e, made) =
      apply_tweaks-IsMade name "default" none ts _ (refl, refl, refl, refl, (_, refl)) in
    let (_, _, class, lb, _) = made in (s, e, made, wants_iff_class s _ class lb)
