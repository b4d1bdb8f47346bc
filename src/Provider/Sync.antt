-- ===== src/Provider/Sync.antt =====
-- The reconciliation of a service: checkLegacyLoadBalancerIPAnnotation and syncLoadBalancer of
-- pkg/provider/loadBalancer.go, getConfigMap and createConfigMap of pkg/provider/config.go.
pub mod Settled
pub mod FreshVips
pub mod Fresh
pub mod FromRange
use kube_vip_cloud_provider.Prelude.{
  String, Bool, true, false, not, ◌||◌, Option, none, some, List, [], ◌∷◌, str_eq, if◌then◌else◌,
  split, is_empty, concat, GoError, Result, errorf, ok, err,
}
use kube_vip_cloud_provider.Netipx.{Netipx}
use kube_vip_cloud_provider.Config.{get_kubevip_lb_config}
use kube_vip_cloud_provider.Kube.{Service, ConfigMap, LoadBalancerStatus}
use kube_vip_cloud_provider.Kube.GoMap.{nil, get, assign, delete}
use kube_vip_cloud_provider.Ipam.Manager.{error_message}
use kube_vip_cloud_provider.Provider.Cluster.{Cluster}
use kube_vip_cloud_provider.Provider.Pool.{Discovered, discover_pool}
use kube_vip_cloud_provider.Provider.Interface.{discover_interface}
use kube_vip_cloud_provider.Provider.Sharing.{
  loadbalancer_ips_annotation, PortMap, map_implemented_services, discover_shared_vips,
}
use kube_vip_cloud_provider.Provider.Vips.{Request, Managers, discover_vips}

abbrev pub implementation_label_key : String
implementation_label_key = "implementation"

abbrev pub implementation_label_value : String
implementation_label_value = "kube-vip"

abbrev pub legacy_ipam_address_label_key : String
legacy_ipam_address_label_key = "ipam-address"

abbrev pub service_interface_annotation_key : String
service_interface_annotation_key = "kube-vip.io/serviceInterface"

-- getKubevipImplementationLabel
abbrev pub implementation_label : String
implementation_label = concat (implementation_label_key ∷ "=" ∷ implementation_label_value ∷ [])

-- What the reconciliation returns: a status and an error, each of which may be nil.
pub record Reply : Type 0 where
  pub status : Option LoadBalancerStatus
  pub error : Option GoError

abbrev pub no_reply : Reply
no_reply = record { status = none; error = none }

abbrev pub with_status : Service → Reply
with_status svc = record { status = some svc.status; error = none }

abbrev pub with_error : GoError → Reply
with_error e = record { status = none; error = some e }

-- `v, ok := service.Annotations[LoadbalancerIPsAnnotation]; ok && len(v) != 0`
abbrev pub is_annotated : Service → Bool
is_annotated svc = not (is_empty (get loadbalancer_ips_annotation svc.annotations))

abbrev pub is_labelled : Service → Bool
is_labelled svc = str_eq (get implementation_label_key svc.labels) implementation_label_value

-- The changes that are made to the service's recent version.
unfoldable pub annotate_legacy : String → Service → Service
annotate_legacy ip recent = record recent {
  annotations = assign loadbalancer_ips_annotation ip recent.annotations;
  labels = delete legacy_ipam_address_label_key recent.labels;
}

unfoldable pub label_implemented : Service → Service
label_implemented recent = record recent {
  labels = assign implementation_label_key implementation_label_value recent.labels;
}

abbrev pub first_text : List String → String
first_text [] = ""
first_text (s ∷ _) = s

unfoldable pub assign_vips : String → String → Service → Service
assign_vips vips interface recent =
    let annotations = assign loadbalancer_ips_annotation vips recent.annotations in
    record recent {
      labels = assign implementation_label_key implementation_label_value recent.labels;
      annotations =
          if is_empty interface
          then annotations
          else assign service_interface_annotation_key interface annotations;
      load_balancer_ip = first_text (split b',' vips);
    }

abbrev pub error_of : {A : Type 0} → Result A → Option GoError
error_of (ok _) = none
error_of (err e) = some e

abbrev pub is_some : {A : Type 0} → Option A → Bool
is_some none = false
is_some (some _) = true

abbrev pub update_failure : String → Option GoError → Option GoError
update_failure name none = none
update_failure name (some e) =
    some (errorf (concat ("error updating Service Spec [" ∷ name ∷ "] : " ∷ error_message e ∷ [])))

module _ (K : Cluster) where
  -- Get, change, Update.
  abbrev pub update_recent :
      (Service → Service) → K.State × Result Service → K.State × Option GoError
  update_recent edit (st, err e) = (st, some e)
  update_recent edit (st, ok recent) =
      let (st', r) = K.update_service (edit recent) st in (st', error_of r)

  unfoldable pub attempt : Service → (Service → Service) → K.State → K.State × Option GoError
  attempt svc edit st = update_recent edit (K.get_service svc.namespace svc.name st)

  unfoldable pub update_spec : Service → (Service → Service) → K.State → K.State × Option GoError
  update_spec svc edit st =
      let (st', e) = K.retry_on_conflict (attempt svc edit) st in (st', update_failure svc.name e)

  abbrev pub reply_to : Service → K.State × Option GoError → K.State × Reply
  reply_to svc (st, none) = (st, with_status svc)
  reply_to svc (st, some e) = (st, with_error e)

  unfoldable pub check_legacy : Service → K.State → K.State × Reply
  check_legacy svc st =
      if is_empty svc.load_balancer_ip
      then (st, no_reply)
      else if is_annotated svc
      then (st, with_status svc)
      else reply_to svc (update_spec svc (annotate_legacy svc.load_balancer_ip) st)

  -- A service that comes with its addresses.
  unfoldable pub keep_annotated : Service → K.State → K.State × Reply
  keep_annotated svc st =
      if is_labelled svc
      then (st, with_status svc)
      else reply_to svc (update_spec svc label_implemented st)

  abbrev pub created : String → String → K.State × Result ConfigMap → K.State × Result ConfigMap
  created name namespace (st, ok cm) = (st, ok cm)
  created name namespace (st, err _) =
      K.create_config_map namespace
        (record { name = name; namespace = namespace; config_data = nil }) st

  -- getConfigMap, and createConfigMap if it fails
  unfoldable pub get_or_create_config_map : String → String → K.State → K.State × Result ConfigMap
  get_or_create_config_map name namespace st =
      created name namespace (K.get_config_map namespace name st)

  module _ (N : Netipx) (order : PortMap → PortMap) where
    pub record World : Type 0 where
      pub cluster : K.State
      pub managers : Managers N

    abbrev pub written : Service → Managers N → K.State × Option GoError → World × Reply
    written svc ms r =
        let (st, reply) = reply_to svc r in (record { cluster = st; managers = ms }, reply)

    abbrev pub interface_for : ConfigMap → Service → String → String
    interface_for cm svc vips = if is_empty vips then "" else discover_interface cm svc.namespace

    abbrev pub after_vips :
        Service → ConfigMap → K.State → Managers N × Result String → World × Reply
    after_vips svc cm st (ms, err e) = (record { cluster = st; managers = ms }, with_error e)
    after_vips svc cm st (ms, ok vips) =
        written svc ms (update_spec svc (assign_vips vips (interface_for cm svc vips)) st)

    -- The address that is looked for among the shared ones.
    abbrev pub preferred_ip : Service → Discovered → PortMap → String
    preferred_ip svc d m = if d.allow_share then discover_shared_vips svc (order m) else ""

    abbrev pub request : Service → ConfigMap → Discovered → N.IPSet → PortMap → Request N
    request svc cm d in_use m = record {
      namespace = svc.namespace;
      preferred_ipv4 = preferred_ip svc d m;
      in_use = in_use;
      config = some (get_kubevip_lb_config cm);
    }

    abbrev pub after_map :
        Service → ConfigMap → Discovered → World → Result (N.IPSet × PortMap) → World × Reply
    after_map svc cm d w (err e) = (w, with_error e)
    after_map svc cm d w (ok (in_use, m)) = after_vips svc cm w.cluster (
        discover_vips N (request svc cm d in_use m) d.pool svc.ip_family_policy svc.ip_families
          w.managers)

    abbrev pub after_list :
        Service
        → ConfigMap
        → Discovered
        → Managers N
        → K.State × Result (List Service)
        → World × Reply
    after_list svc cm d ms (st, err e) = (
      record { cluster = st; managers = ms },
      record { status = some svc.status; error = some e },
    )
    after_list svc cm d ms (st, ok svcs) =
        after_map svc cm d (record { cluster = st; managers = ms })
          (map_implemented_services N svcs d.allow_share)

    -- The services of the pool's namespace, or of all for the global pool.
    abbrev pub list_namespace : Service → Discovered → String
    list_namespace svc d = if d.global then "" else svc.namespace

    abbrev pub after_pool : Service → ConfigMap → World → Result Discovered → World × Reply
    after_pool svc cm w (err e) = (w, with_error e)
    after_pool svc cm w (ok d) =
        after_list svc cm d w.managers
          (K.list_services (list_namespace svc d) implementation_label w.cluster)

    abbrev pub after_config : Service → Managers N → K.State × Result ConfigMap → World × Reply
    after_config svc ms (st, err e) = (record { cluster = st; managers = ms }, with_error e)
    after_config svc ms (st, ok cm) =
        after_pool svc cm (record { cluster = st; managers = ms }) (discover_pool cm svc.namespace)

    -- The rest of the reconciliation, once a legacy service has been looked for.
    abbrev pub after_legacy :
        Service → String → String → Managers N → K.State × Reply → World × Reply
    after_legacy svc cm_name cm_namespace ms (st, reply) =
        if is_some reply.status || is_some reply.error
        then (record { cluster = st; managers = ms }, reply)
        else if is_annotated svc
        then (let (st', r) = keep_annotated svc st in (record { cluster = st'; managers = ms }, r))
        else after_config svc ms (get_or_create_config_map cm_name cm_namespace st)

    unfoldable pub sync_load_balancer : Service → String → String → World → World × Reply
    sync_load_balancer svc cm_name cm_namespace w =
        after_legacy svc cm_name cm_namespace w.managers (check_legacy svc w.cluster)
