-- ===== src/Provider/Registration.antt =====
-- The cloud provider of pkg/provider/provider.go: its settings from the environment, its client, and
-- what it starts; and the interfaces of pkg/provider/disabledServices.go.
use kube_vip_cloud_provider.Prelude.{
  String, Bool, true, false, not, Option, none, some, List, [], ◌∷◌, if◌then◌else◌, is_empty,
  concat, append_text, GoError, Result, errorf, err, ok,
}
use kube_vip_cloud_provider.Provider.Pool.{parse_bool}

abbrev pub provider_name : String
provider_name = "kubevip"

abbrev pub kube_vip_client_config : String
kube_vip_client_config = "kubevip"

abbrev pub kube_vip_client_config_namespace : String
kube_vip_client_config_namespace = "kube-system"

abbrev pub enable_loadbalancer_class_env_key : String
enable_loadbalancer_class_env_key = "KUBEVIP_ENABLE_LOADBALANCERCLASS"

-- os.Getenv, the empty text for what is not set
abbrev pub Environment : Type 0
Environment = String → String

-- client-go's configurations and clients, and the texts of strconv.ParseBool's errors
pub record ClientGo : Type 1 where
  pub Config : Type 0
  pub Client : Type 0
  pub in_cluster_config : Result Config
  pub build_config_from_flags : String → String → Result Config
  pub new_for_config : Config → Result Client
  pub error_text : GoError → String
  pub parse_bool_text : String → String
  pub join_path : List String → String

-- A function of Go returns a value or an error, or panics.
pub data Outcome (A : Type 0) : Type 0 where
  returns : A → Outcome A
  fails : GoError → Outcome A
  panics : String → Outcome A

abbrev pub map_outcome : {A B : Type 0} → (A → B) → Outcome A → Outcome B
map_outcome f (returns a) = returns (f a)
map_outcome f (fails e) = fails e
map_outcome f (panics text) = panics text

abbrev pub or_default : String → String → String
or_default text default = if is_empty text then default else text

-- `len(lbc) > 0` and strconv.ParseBool
unfoldable pub class_enabled : Environment → Option Bool
class_enabled env =
    let text = env enable_loadbalancer_class_env_key in
    if is_empty text then some false else parse_bool text

module _ (G : ClientGo) where
  -- kubevipLoadBalancerManager
  pub record LoadBalancerManager : Type 0 where
    pub kube_client : G.Client
    pub namespace : String
    pub cloud_config_map : String

  unfoldable pub new_load_balancer : G.Client → String → String → LoadBalancerManager
  new_load_balancer client ns cm = record {
    kube_client = client;
    namespace = ns;
    cloud_config_map = cm;
  }

  pub record KubeVipCloudProvider : Type 0 where
    pub lb : LoadBalancerManager
    pub kube_client : G.Client
    pub namespace : String
    pub config_map_name : String
    pub enable_lb_class : Bool

  abbrev wrapped : String → GoError → GoError
  wrapped text e = errorf (append_text text (G.error_text e))

  abbrev pub client_from : (GoError → Outcome G.Client) → Result G.Config → Outcome G.Client
  client_from no_config (err e) = no_config e
  client_from no_config (ok config) = elim (G.new_for_config config) [
    | ok client ↦ returns client
    | err e ↦ fails (wrapped "error creating kubernetes client: " e)
  ]

  unfoldable pub connect : Environment → Bool → Outcome G.Client
  connect env outside_cluster =
      if not outside_cluster
      then client_from (λ e. fails (wrapped "error creating kubernetes client config: " e))
          G.in_cluster_config
      else client_from (λ e. panics (G.error_text e))
          (G.build_config_from_flags "" (G.join_path (env "HOME" ∷ ".kube" ∷ "config" ∷ [])))

  abbrev pub provider_of : String → String → Bool → G.Client → KubeVipCloudProvider
  provider_of ns cm enabled client = record {
    lb = new_load_balancer client ns cm;
    kube_client = client;
    namespace = ns;
    config_map_name = cm;
    enable_lb_class = enabled;
  }

  abbrev pub with_class : Environment → Bool → Option Bool → Outcome KubeVipCloudProvider
  with_class env outside_cluster none = fails (
      errorf (
        concat (
          "error parsing value of "
          ∷ enable_loadbalancer_class_env_key
          ∷ ": "
          ∷ G.parse_bool_text (env enable_loadbalancer_class_env_key)
          ∷ [])))
  with_class env outside_cluster (some enabled) =
      map_outcome
        (provider_of (or_default (env "KUBEVIP_NAMESPACE") kube_vip_client_config_namespace)
          (or_default (env "KUBEVIP_CONFIG_MAP") kube_vip_client_config) enabled)
        (connect env outside_cluster)

  unfoldable pub new_kube_vip_cloud_provider : Environment → Bool → Outcome KubeVipCloudProvider
  unfolding connect class_enabled new_load_balancer
  new_kube_vip_cloud_provider env outside_cluster =
      with_class env outside_cluster (class_enabled env)

  -- What the provider starts: the controller of the load balancer class, with the config map's name
  -- and namespace, and the informers.
  pub data Start : Type 0 where
    class_controller : (cm_name cm_namespace : String) → Start
    informers : Start
    cache_sync : Start

  unfoldable pub initialize : KubeVipCloudProvider → List Start
  initialize p =
      let shared = informers ∷ cache_sync ∷ [] in
      if p.enable_lb_class then class_controller p.config_map_name p.namespace ∷ shared else shared

  unfoldable pub load_balancer : KubeVipCloudProvider → LoadBalancerManager × Bool
  load_balancer p = (p.lb, true)

-- The interfaces of a cloud provider that are not supported: nil, and false.
module _ {A : Type 0} where
  abbrev unsupported : Option A × Bool
  unsupported = (none, false)

  abbrev pub instances : Option A × Bool
  instances = unsupported

  abbrev pub instances_v2 : Option A × Bool
  instances_v2 = unsupported

  abbrev pub zones : Option A × Bool
  zones = unsupported

  abbrev pub clusters : Option A × Bool
  clusters = unsupported

  abbrev pub routes : Option A × Bool
  routes = unsupported

abbrev pub has_cluster_id : Bool
has_cluster_id = false
