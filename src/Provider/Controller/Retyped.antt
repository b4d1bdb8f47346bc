-- ===== src/Provider/Controller/Retyped.antt =====
-- A service whose type or load balancer class changes, for the event handler of
-- pkg/provider/loadbalancerclass.go.
use kube_vip_cloud_provider.Prelude.{String, ◌≡◌, refl, inl, inr, false, Option, Bool-cases}
use kube_vip_cloud_provider.Kube.{Service}
use kube_vip_cloud_provider.Kube.GoMap.{deep_equal_refl}
use kube_vip_cloud_provider.Provider.Cluster.{Cluster}
use kube_vip_cloud_provider.Provider.Controller.{
  wants_load_balancer, needs_update, needs_cleanup, on_update,
}
use kube_vip_cloud_provider.Provider.Controller.Update.{needs_update-IsUnchanged}

abbrev pub retyped : Service → String → Option String → Service
retyped svc type class = record svc { type = type; load_balancer_class = class }

retyped_unchanged :
    (svc : Service) (type : String) (class : Option String)
    → (needs_update svc (retyped svc type class)).0 ≡ false
retyped_unchanged svc type class =
    (needs_update-IsUnchanged svc (retyped svc type class)).1 (record {
      source_ranges = λ _. refl;
      ports = refl;
      session_affinity = refl;
      session_affinity_config = refl;
      load_balancer_ip = refl;
      external_ips = refl;
      annotations = deep_equal_refl svc.annotations;
      uid = refl;
      external_traffic_policy = refl;
      health_check_node_port = refl;
      ip_family_count = refl;
    })

-- A service of which nothing but the type and the class changes is not queued by the change, not
-- even if it is the change that makes it a service of kube-vip's class, unless it is being deleted
-- with the finalizer on it.
pub on_update-retyped :
    (K : Cluster) (svc : Service) (type : String) (class : Option String)
    → needs_cleanup K (retyped svc type class) ≡ false
    → on_update K svc (retyped svc type class) ≡ false
unfolding on_update
on_update-retyped K svc type class kept =
    let same = retyped_unchanged svc type class in
    elim (Bool-cases (wants_load_balancer (retyped svc type class))) [
      | inl e ↦ rw (on_update, e, same, kept) refl
      | inr e ↦ rw (on_update, e) refl
    ]
