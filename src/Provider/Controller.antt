-- ===== src/Provider/Controller.antt =====
-- The controller of the services that have kube-vip's load balancer class, of
-- pkg/provider/loadbalancerclass.go: which changes of a service it takes up, and what it does then.
pub mod Ports
pub mod Update
pub mod Finalizer
pub mod Queue
pub mod System
pub mod Retyped
use kube_vip_cloud_provider.Prelude.{
  ℕ, zero, suc, ◌+◌, ◌-◌, ◌*◌, ◌/◌, ◌%◌, ◌^◌, ◌≤◌, ◌<◌, String, ◌≡◌, refl, sym, ap, ◌∙◌, subst, ◌≢◌,
  ◌↔◌, ◌⊎◌, inl, inr, Bool, true, false, not, ◌&&◌, ◌||◌, Option, none, some, List, [], ◌∷◌, ◌++◌,
  map, arith, str_eq, eq_iff, ltb, leb, ◌==◌, if◌then◌else◌, ==_iff, Bool-cases, Option-cases,
  split, contains_byte, is_empty, concat, join, append_text, first_code, length, All, Any, GoError,
  Result, ◌>>=◌, Result-cases, >>=-eq-ok, out_of_ips, errorf, foreign, diverged, ok, err,
}
use kube_vip_cloud_provider.Netipx.{Netipx}
use kube_vip_cloud_provider.Kube.{Service, ServicePort, IntOrString}
use kube_vip_cloud_provider.Kube.GoMap.{deep_equal}
use kube_vip_cloud_provider.Provider.Cluster.{Cluster}
use kube_vip_cloud_provider.Provider.Sharing.{PortMap}
use kube_vip_cloud_provider.Provider.Vips.{Managers}
use kube_vip_cloud_provider.Provider.Sync.{World, Reply, sync_load_balancer}

abbrev pub loadbalancer_class : String
loadbalancer_class = "kube-vip.io/kube-vip-class"

abbrev is_text : String → Option String → Bool
is_text s none = false
is_text s (some t) = str_eq t s

unfoldable pub wants_load_balancer : Service → Bool
wants_load_balancer svc =
    str_eq svc.type "LoadBalancer" && is_text loadbalancer_class svc.load_balancer_class

-- reflect.DeepEqual of two pointers, and of two slices
abbrev pub same_option : {A : Type 0} → (A → A → Bool) → Option A → Option A → Bool
same_option same none none = true
same_option same (some x) (some y) = same x y
same_option same _ _ = false

abbrev pub same_texts : List String → List String → Bool
same_texts [] [] = true
same_texts (s ∷ ss) (t ∷ ts) = str_eq s t && same_texts ss ts
same_texts _ _ = false

abbrev pub same_target : IntOrString → IntOrString → Bool
same_target x y = x.type == y.type && x.int_val == y.int_val && str_eq x.str_val y.str_val

unfoldable pub port_equal_for_lb : ServicePort → ServicePort → Bool
port_equal_for_lb x y =
    if not (str_eq x.name y.name)
    then false
    else if not (str_eq x.protocol y.protocol)
    then false
    else if not (x.port == y.port)
    then false
    else if not (x.node_port == y.node_port)
    then false
    else if not (same_target x.target_port y.target_port)
    then false
    else same_option str_eq x.app_protocol y.app_protocol

-- The loop over two slices of one length.
unfoldable pub all_ports_equal : List ServicePort → List ServicePort → Bool
all_ports_equal (x ∷ xs) (y ∷ ys) =
    let rest = all_ports_equal xs ys in if not (port_equal_for_lb x y) then false else rest
all_ports_equal _ _ = true

unfoldable pub port_slices_equal_for_lb : List ServicePort → List ServicePort → Bool
port_slices_equal_for_lb xs ys =
    if not (length xs == length ys) then false else all_ports_equal xs ys

unfoldable pub ports_equal_for_lb : Service → Service → Bool
ports_equal_for_lb x y = port_slices_equal_for_lb x.ports y.ports

abbrev pub load_balancer_ips_are_equal : Service → Service → Bool
load_balancer_ips_are_equal old new = str_eq old.load_balancer_ip new.load_balancer_ip

-- The loop over the external addresses, of which both services have as many.
unfoldable pub external_ip_changed : List String → List String → Bool
external_ip_changed (o ∷ old) (n ∷ new) =
    let rest = external_ip_changed old new in if not (str_eq o n) then true else rest
external_ip_changed _ _ = false

-- Whether the load balancer has to be updated, and the reasons of the events that are recorded.
unfoldable pub needs_update : Service → Service → Bool × List String
needs_update old new =
    if wants_load_balancer new
      && not
          (same_option same_texts old.load_balancer_source_ranges new.load_balancer_source_ranges)
    then (true, "LoadBalancerSourceRanges" ∷ [])
    else if not (ports_equal_for_lb old new)
        || not (str_eq old.session_affinity new.session_affinity)
    then (true, [])
    else if not (
        same_option (same_option (same_option ◌==◌)) old.session_affinity_config
          new.session_affinity_config)
    then (true, [])
    else if not (load_balancer_ips_are_equal old new)
    then (true, "LoadbalancerIP" ∷ [])
    else if not (length old.external_ips == length new.external_ips)
    then (true, "ExternalIP" ∷ [])
    else if external_ip_changed old.external_ips new.external_ips
    then (true, "ExternalIP" ∷ [])
    else if not (deep_equal old.annotations new.annotations)
    then (true, [])
    else if not (str_eq old.uid new.uid)
    then (true, "UID" ∷ [])
    else if not (str_eq old.external_traffic_policy new.external_traffic_policy)
    then (true, "ExternalTrafficPolicy" ∷ [])
    else if not (old.health_check_node_port == new.health_check_node_port)
    then (true, "HealthCheckNodePort" ∷ [])
    else if not (length old.ip_families == length new.ip_families)
    then (true, "IPFamilies" ∷ [])
    else (false, [])

unfoldable pub remove_string : List String → String → List String
remove_string [] s = []
remove_string (item ∷ items) s =
    let rest = remove_string items s in if not (str_eq item s) then item ∷ rest else rest

-- `service.DeletionTimestamp.IsZero()`
abbrev pub is_zero_time : Option ℕ → Bool
is_zero_time none = true
is_zero_time (some t) = t == 0

abbrev result_error : {A : Type 0} → Result A → Option GoError
result_error (ok _) = none
result_error (err e) = some e

module _ (K : Cluster) where
  unfoldable pub needs_cleanup : Service → Bool
  needs_cleanup svc =
      if not (K.has_lb_finalizer svc)
      then false
      else if not (is_zero_time svc.deletion_timestamp)
      then true
      else false

  -- The event handlers of the informer: whether a service is put into the queue.
  unfoldable pub on_add : Service → Bool
  on_add cur = wants_load_balancer cur

  unfoldable pub on_update : Service → Service → Bool
  on_update old cur = wants_load_balancer cur && ((needs_update old cur).0 || needs_cleanup cur)

  abbrev patched : K.State × Result Service → K.State × Option GoError
  patched (st, r) = (st, result_error r)

  unfoldable pub add_finalizer : Service → K.State → K.State × Option GoError
  add_finalizer svc st =
      if K.has_lb_finalizer svc
      then (st, none)
      else patched (
          K.patch_service svc (record svc { finalizers = svc.finalizers ++ K.lb_finalizer ∷ [] })
            st)

  unfoldable pub remove_finalizer : Service → K.State → K.State × Option GoError
  remove_finalizer svc st =
      if not (K.has_lb_finalizer svc)
      then (st, none)
      else patched (
          K.patch_service svc
            (record svc { finalizers = remove_string svc.finalizers K.lb_finalizer }) st)

  module _ (N : Netipx) (order : PortMap → PortMap) where
    -- The world, the reasons of the recorded events, and the error.
    pub record Processed : Type 0 where
      pub world : World K N order
      pub events : List String
      pub error : Option GoError

    abbrev pub after_removal : Managers N → K.State × Option GoError → Processed
    after_removal ms (st, some e) = record {
      world = record { cluster = st; managers = ms };
      events = [];
      error = some e;
    }
    after_removal ms (st, none) = record {
      world = record { cluster = st; managers = ms };
      events = "LoadBalancerDeleted" ∷ [];
      error = none;
    }

    abbrev pub after_sync : World K N order × Reply → Processed
    after_sync (w, reply) = elim reply.error [
      | some e ↦ record {
        world = w;
        events = "EnsuringLoadBalancer" ∷ "syncLoadBalancer" ∷ [];
        error = some e;
      }
      | none ↦ record {
        world = w;
        events = "EnsuringLoadBalancer" ∷ "EnsuredLoadBalancer" ∷ [];
        error = none;
      }
    ]

    abbrev pub after_addition :
        Service → String → String → Managers N → K.State × Option GoError → Processed
    after_addition svc cm_name cm_namespace ms (st, some e) = record {
      world = record { cluster = st; managers = ms };
      events = "EnsuringLoadBalancer" ∷ [];
      error = some e;
    }
    after_addition svc cm_name cm_namespace ms (st, none) = after_sync (
        sync_load_balancer K N order svc cm_name cm_namespace
          (record { cluster = st; managers = ms }))

    unfoldable pub process_service_create_or_update :
        Service → String → String → World K N order → Processed
    process_service_create_or_update svc cm_name cm_namespace w =
        if not (is_zero_time svc.deletion_timestamp)
        then after_removal w.managers (remove_finalizer svc w.cluster)
        else after_addition svc cm_name cm_namespace w.managers (add_finalizer svc w.cluster)
