-- ===== src/Provider/Cluster/Store.antt =====
-- A cluster as lists of services and config maps: an implementation of the interface, for the tests.
use kube_vip_cloud_provider.Prelude.{
  String, refl, Bool, false, ◌&&◌, ◌||◌, List, [], ◌∷◌, str_eq, if◌then◌else◌, is_empty, concat,
  Result, foreign, ok, err,
}
use kube_vip_cloud_provider.Kube.{Service, ConfigMap}
use kube_vip_cloud_provider.Kube.GoMap.{get}
use kube_vip_cloud_provider.Provider.Cluster.{Cluster, RetryLaws}

pub record Objects : Type 0 where
  pub services : List Service
  pub config_maps : List ConfigMap

abbrev has_name : String → String → Service → Bool
has_name namespace name svc = str_eq svc.namespace namespace && str_eq svc.name name

unfoldable pub find_service : String → String → List Service → Result Service
find_service namespace name [] = err (foreign "not found")
find_service namespace name (svc ∷ svcs) =
    if has_name namespace name svc then ok svc else find_service namespace name svcs

unfoldable pub replace_service : Service → List Service → List Service
replace_service svc [] = []
replace_service svc (other ∷ svcs) =
    let rest = replace_service svc svcs in
    if has_name svc.namespace svc.name other then svc ∷ svcs else other ∷ rest

unfoldable pub find_config_map : String → String → List ConfigMap → Result ConfigMap
find_config_map namespace name [] = err (foreign "not found")
find_config_map namespace name (cm ∷ cms) =
    if str_eq cm.namespace namespace && str_eq cm.name name
    then ok cm
    else find_config_map namespace name cms

-- The services of a namespace, or of all if it is the empty text, that have the label.
unfoldable pub select_services : String → String → List Service → List Service
select_services namespace selector [] = []
select_services namespace selector (svc ∷ svcs) =
    let rest = select_services namespace selector svcs in
    if (is_empty namespace || str_eq svc.namespace namespace)
      && str_eq (concat ("implementation=" ∷ get "implementation" svc.labels ∷ [])) selector
    then svc ∷ rest
    else rest

abbrev pub cleanup_finalizer : String
cleanup_finalizer = "service.kubernetes.io/load-balancer-cleanup"

unfoldable pub contains_text : String → List String → Bool
contains_text s [] = false
contains_text s (t ∷ ts) = str_eq t s || contains_text s ts

-- An update of a service that is there, or a failure.
unfoldable pub put_service : Service → Objects → Objects × Result Service
unfolding find_service replace_service
put_service svc st = elim (find_service svc.namespace svc.name st.services) [
  | ok _ ↦ (record st { services = replace_service svc st.services }, ok svc)
  | err e ↦ (st, err e)
]

abbrev pub store : Cluster
store = record {
  State = Objects;
  get_service = λ namespace name st. (st, find_service namespace name st.services);
  update_service = put_service;
  list_services =
      λ namespace selector st. (st, ok (select_services namespace selector st.services));
  get_config_map = λ namespace name st. (st, find_config_map namespace name st.config_maps);
  create_config_map = λ namespace cm st. (record st { config_maps = cm ∷ st.config_maps }, ok cm);
  retry_on_conflict = λ attempt st. attempt st;
  has_lb_finalizer = λ svc. contains_text cleanup_finalizer svc.finalizers;
  lb_finalizer = cleanup_finalizer;
  patch_service = λ old new. put_service new;
}

pub store-RetryLaws : RetryLaws store
store-RetryLaws = record { retry_tries = λ attempt st. (0, refl) }
