-- ===== src/Provider/Cluster.antt =====
-- The Kubernetes API server as the provider reaches it: client-go's typed clients, its
-- retry.RetryOnConflict, and the helpers of k8s.io/cloud-provider/service/helpers.
pub mod Store
use kube_vip_cloud_provider.Prelude.{
  ℕ, zero, suc, ◌+◌, ◌-◌, ◌*◌, ◌/◌, ◌%◌, ◌^◌, ◌≤◌, ◌<◌, String, ◌≡◌, refl, sym, ap, ◌∙◌, subst, ◌≢◌,
  ◌↔◌, ◌⊎◌, inl, inr, Bool, true, false, not, ◌&&◌, ◌||◌, Option, none, some, List, [], ◌∷◌, ◌++◌,
  map, arith, str_eq, eq_iff, ltb, leb, ◌==◌, if◌then◌else◌, ==_iff, Bool-cases, Option-cases,
  split, contains_byte, is_empty, concat, join, append_text, first_code, length, All, Any, GoError,
  Result, ◌>>=◌, Result-cases, >>=-eq-ok, out_of_ips, errorf, foreign, diverged, ok, err,
}
use kube_vip_cloud_provider.Kube.{Service, ConfigMap}

pub record Cluster : Type 1 where
  pub State : Type 0
  -- CoreV1().Services(namespace): Get, Update and List by label
  pub get_service : String → String → State → State × Result Service
  pub update_service : Service → State → State × Result Service
  pub list_services : String → String → State → State × Result (List Service)
  -- CoreV1().ConfigMaps(namespace): Get and Create
  pub get_config_map : String → String → State → State × Result ConfigMap
  pub create_config_map : String → ConfigMap → State → State × Result ConfigMap
  -- retry.RetryOnConflict(retry.DefaultRetry, attempt)
  pub retry_on_conflict : (State → State × Option GoError) → State → State × Option GoError
  -- servicehelper: HasLBFinalizer, LoadBalancerCleanupFinalizer and PatchService
  pub has_lb_finalizer : Service → Bool
  pub lb_finalizer : String
  pub patch_service : Service → Service → State → State × Result Service

module _ (K : Cluster) where
  -- An attempt that is made again `n` times.
  abbrev pub after_tries :
      (K.State → K.State × Option GoError) → ℕ → K.State → K.State × Option GoError
  after_tries attempt zero st = attempt st
  after_tries attempt (suc n) st = after_tries attempt n (attempt st).0

  -- RetryOnConflict makes the attempt until it gives up, and returns what the last one returned.
  pub record RetryLaws : Type 0 where
    pub retry_tries :
        (attempt : K.State → K.State × Option GoError) (st : K.State)
        → (n : ℕ) × (K.retry_on_conflict attempt st ≡ after_tries attempt n st)
