-- ===== src/Kube.antt =====
-- The parts of the Kubernetes objects that the provider reads and writes (k8s.io/api/core/v1). An
-- int32 is only compared and counted, so a number stands for it.
pub mod GoMap
use kube_vip_cloud_provider.Prelude.{
  ℕ, zero, suc, ◌+◌, ◌-◌, ◌*◌, ◌/◌, ◌%◌, ◌^◌, ◌≤◌, ◌<◌, String, ◌≡◌, refl, sym, ap, ◌∙◌, subst, ◌≢◌,
  ◌↔◌, ◌⊎◌, inl, inr, Bool, true, false, not, ◌&&◌, ◌||◌, Option, none, some, List, [], ◌∷◌, ◌++◌,
  map, arith, str_eq, eq_iff, ltb, leb, ◌==◌, if◌then◌else◌, ==_iff, Bool-cases, Option-cases,
  split, contains_byte, is_empty, concat, join, append_text, first_code, length, All, Any, GoError,
  Result, ◌>>=◌, Result-cases, out_of_ips, errorf, foreign, diverged, ok, err,
}
use GoMap.{StringMap}

pub data IpFamily : Type 0 where
  ipv4_protocol ipv6_protocol : IpFamily
  other_family : String → IpFamily

pub data IpFamilyPolicy : Type 0 where
  single_stack prefer_dual_stack require_dual_stack : IpFamilyPolicy
  other_policy : String → IpFamilyPolicy

-- intstr.IntOrString: both fields are there, whichever is in use.
pub record IntOrString : Type 0 where
  pub type : ℕ
  pub int_val : ℕ
  pub str_val : String

pub record ServicePort : Type 0 where
  pub name : String
  pub protocol : String
  pub app_protocol : Option String
  pub port : ℕ
  pub target_port : IntOrString
  pub node_port : ℕ

-- The addresses of `status.loadBalancer.ingress`.
abbrev pub LoadBalancerStatus : Type 0
LoadBalancerStatus = List String

pub record Service : Type 0 where
  pub name : String
  pub namespace : String
  pub uid : String
  pub labels : StringMap
  pub annotations : StringMap
  pub finalizers : List String
  -- `none` and `some 0` are zero times.
  pub deletion_timestamp : Option ℕ
  pub type : String
  pub load_balancer_class : Option String
  pub load_balancer_ip : String
  -- `none` is a nil slice, which reflect.DeepEqual tells from an empty one.
  pub load_balancer_source_ranges : Option (List String)
  pub ports : List ServicePort
  pub session_affinity : String
  -- SessionAffinityConfig, its ClientIP and its TimeoutSeconds, each behind a pointer.
  pub session_affinity_config : Option (Option (Option ℕ))
  pub external_ips : List String
  pub external_traffic_policy : String
  pub health_check_node_port : ℕ
  pub ip_families : List IpFamily
  pub ip_family_policy : Option IpFamilyPolicy
  pub status : LoadBalancerStatus

pub record ConfigMap : Type 0 where
  pub name : String
  pub namespace : String
  pub config_data : StringMap
