-- ===== src/Command/Tests.antt =====
-- The theorems on the command and on the provider's factory at concrete environments.
use kube_vip_cloud_provider.Prelude.{
  String, ◌≡◌, refl, Bool, true, false, some, List, [], ◌∷◌, str_eq, if◌then◌else◌, is_empty, join,
  ok,
}
use kube_vip_cloud_provider.Provider.Registration.{
  ClientGo, Environment, returns, class_enabled, new_kube_vip_cloud_provider, KubeVipCloudProvider,
  connect,
}
use kube_vip_cloud_provider.Command.{
  Flag, Manager, goes_on, Command, prepared_command, visit_all, set_static, controller_initializers,
  initializers_for,
}
use kube_vip_cloud_provider.Command.Controllers.{
  prepared_command-OneController, OneController, new_kube_vip_cloud_provider-IsConfigured,
  IsConfigured,
}
use kube_vip_cloud_provider.Command.Flags.{visit_all-AreSet, AreSet}

abbrev flag : String → String → Flag
flag name value = record { name = name; value = value; parse = λ text. ok text }

abbrev manager_code : Manager
manager_code = record {
  Constructor = String;
  service_lb_controller = "service-lb-controller";
  default_init_func_constructors = λ name. some name;
  Options = Unit;
  new_options = ok tt;
  command_flags =
      λ _. flag "allow-untagged-cloud" "false" ∷ flag "cloud-provider" "" ∷ flag "v" "0" ∷ [];
  bool_var = λ name default flags. flag name "false" ∷ flags;
  error_text = λ _. "failed";
  parse_bool_text = λ _. "invalid syntax";
}

abbrev client_code : ClientGo
client_code = record {
  Config = String;
  Client = String;
  in_cluster_config = ok "in-cluster";
  build_config_from_flags = λ url path. ok path;
  new_for_config = λ config. ok config;
  error_text = λ _. "failed";
  parse_bool_text = λ _. "invalid syntax";
  join_path = join "/";
}

-- An environment with one variable set.
abbrev only : String → String → Environment
only name value asked = if str_eq asked name then value else ""

abbrev class_on : Environment
class_on = only "KUBEVIP_ENABLE_LOADBALANCERCLASS" "true"

abbrev class_invalid : Environment
class_invalid = only "KUBEVIP_ENABLE_LOADBALANCERCLASS" "yes"

abbrev in_team : Environment
in_team = only "KUBEVIP_NAMESPACE" "team"

abbrev made_provider : Environment → Bool → KubeVipCloudProvider client_code
made_provider env enabled = record {
  lb = record { kube_client = "in-cluster"; namespace = ns; cloud_config_map = "kubevip" };
  kube_client = "in-cluster";
  namespace = ns;
  config_map_name = "kubevip";
  enable_lb_class = enabled;
}
  where
    ns : String
    ns = if is_empty (env "KUBEVIP_NAMESPACE") then "kube-system" else env "KUBEVIP_NAMESPACE"

abbrev set_flags : List Flag
set_flags =
    flag "OutSideCluster" "false"
    ∷ flag "allow-untagged-cloud" "true"
    ∷ flag "cloud-provider" "kubevip"
    ∷ flag "v" "0"
    ∷ []

abbrev command_on : Command manager_code
command_on = record { options = tt; initializers = []; flags = set_flags }

class_on-prepared : prepared_command manager_code class_on ≡ goes_on command_on
unfolding prepared_command initializers_for class_enabled visit_all set_static
    controller_initializers
class_on-prepared = refl

class_on-provided :
    new_kube_vip_cloud_provider client_code class_on false ≡ returns (made_provider class_on true)
unfolding new_kube_vip_cloud_provider
class_on-provided = refl

prepared_command-OneController_example :
    (enabled : Bool) × (class_enabled class_on ≡ some enabled)
    × OneController command_on (made_provider class_on true) enabled
prepared_command-OneController_example =
    prepared_command-OneController manager_code client_code class_on false class_on-prepared
      class_on-provided

in_team-provided :
    new_kube_vip_cloud_provider client_code in_team false ≡ returns (made_provider in_team false)
unfolding new_kube_vip_cloud_provider
in_team-provided = refl

new_kube_vip_cloud_provider-IsConfigured_example :
    (class_enabled in_team ≡ some false)
    × (connect client_code in_team false ≡ returns "in-cluster")
    × IsConfigured client_code in_team (made_provider in_team false)
new_kube_vip_cloud_provider-IsConfigured_example =
    new_kube_vip_cloud_provider-IsConfigured client_code in_team false (made_provider in_team false)
      in_team-provided

abbrev given_flags : List Flag
given_flags =
    flag "OutSideCluster" "false"
    ∷ flag "allow-untagged-cloud" "false"
    ∷ flag "cloud-provider" ""
    ∷ flag "v" "0"
    ∷ []

given_flags-visited : visit_all manager_code given_flags ≡ goes_on set_flags
unfolding visit_all set_static
given_flags-visited = refl

visit_all-AreSet_example : AreSet given_flags set_flags
visit_all-AreSet_example = visit_all-AreSet manager_code given_flags set_flags given_flags-visited
