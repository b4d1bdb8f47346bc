-- ===== src/Provider/CloudLoadBalancer.antt =====
-- The methods of cloudprovider.LoadBalancer that pkg/provider/loadBalancer.go implements.
use kube_vip_cloud_provider.Prelude.{
  String, Bool, true, false, Option, none, some, if◌then◌else◌, GoError,
}
use kube_vip_cloud_provider.Netipx.{Netipx}
use kube_vip_cloud_provider.Kube.{Service, LoadBalancerStatus}
use kube_vip_cloud_provider.Provider.Cluster.{Cluster}
use kube_vip_cloud_provider.Provider.Sharing.{PortMap}
use kube_vip_cloud_provider.Provider.Sync.{is_labelled, World, Reply, sync_load_balancer}

-- The status, and whether the load balancer exists.
unfoldable pub get_load_balancer : Service → Option LoadBalancerStatus × Bool
get_load_balancer svc = if is_labelled svc then (some svc.status, true) else (none, false)

module _ (K : Cluster) (N : Netipx) (order : PortMap → PortMap) where
  unfoldable pub ensure_load_balancer :
      Service → String → String → World K N order → World K N order × Reply
  unfolding sync_load_balancer
  ensure_load_balancer svc cm_name cm_namespace w =
      sync_load_balancer K N order svc cm_name cm_namespace w

  unfoldable pub update_load_balancer :
      Service → String → String → World K N order → World K N order × Option GoError
  unfolding sync_load_balancer
  update_load_balancer svc cm_name cm_namespace w =
      let (w', reply) = sync_load_balancer K N order svc cm_name cm_namespace w in (w', reply.error)

  -- EnsureLoadBalancerDeleted, which only logs
  unfoldable pub ensure_load_balancer_deleted :
      Service → World K N order → World K N order × Option GoError
  ensure_load_balancer_deleted svc w = (w, none)
