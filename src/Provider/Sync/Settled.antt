-- ===== src/Provider/Sync/Settled.antt =====
-- syncLoadBalancer for a service that has its addresses.
use kube_vip_cloud_provider.Prelude.{
  String, ◌≡◌, refl, inl, inr, true, false, some, if◌then◌else◌, Bool-cases, split, is_empty,
}
use kube_vip_cloud_provider.Netipx.{Netipx}
use kube_vip_cloud_provider.Kube.{Service}
use kube_vip_cloud_provider.Kube.GoMap.{assign, lookup, lookup-assign, StringMap}
use kube_vip_cloud_provider.Provider.Cluster.{Cluster}
use kube_vip_cloud_provider.Provider.Sharing.{loadbalancer_ips_annotation, PortMap}
use kube_vip_cloud_provider.Provider.Sync.{
  is_annotated, with_status, assign_vips, first_text, service_interface_annotation_key,
  check_legacy, World, sync_load_balancer,
}

-- The service has an address and its annotation.
abbrev pub IsSettled : Service → Type 0
IsSettled svc = (is_empty svc.load_balancer_ip ≡ false) × (is_annotated svc ≡ true)

annotations_of :
    (vips interface : String) (m : StringMap)
    → lookup loadbalancer_ips_annotation (
        if is_empty interface
        then assign loadbalancer_ips_annotation vips m
        else assign service_interface_annotation_key interface
            (assign loadbalancer_ips_annotation vips m))
      ≡ some vips
annotations_of vips interface m = elim (Bool-cases (is_empty interface)) [
  | inl e ↦
      rw (e, lookup-assign loadbalancer_ips_annotation loadbalancer_ips_annotation vips m) refl
  | inr e ↦
      rw
        (
          e,
          lookup-assign service_interface_annotation_key loadbalancer_ips_annotation interface
              (assign loadbalancer_ips_annotation vips m),
          lookup-assign loadbalancer_ips_annotation loadbalancer_ips_annotation vips m,
        )
        refl
]

nonempty : (s : String) → is_empty (first_text (split b',' s)) ≡ false → is_empty s ≡ false
unfolding split
nonempty String.[] h = h
nonempty (String.◌∷◌ c s) h = refl

assign_vips-IsSettled :
    (vips interface : String) (recent : Service)
    → is_empty (first_text (split b',' vips)) ≡ false
    → IsSettled (assign_vips vips interface recent)
unfolding assign_vips
assign_vips-IsSettled vips interface recent first =
    (first, rw (annotations_of vips interface recent.annotations, nonempty vips first) refl)

module _ (K : Cluster) (N : Netipx) (order : PortMap → PortMap) where
  pub sync_load_balancer-IsSettled :
      (svc : Service) (cm_name cm_namespace : String) (w : World K N order)
      → IsSettled svc
      → sync_load_balancer K N order svc cm_name cm_namespace w ≡ (w, with_status svc)
  unfolding sync_load_balancer check_legacy
  sync_load_balancer-IsSettled svc cm_name cm_namespace w h =
      rw (sync_load_balancer, check_legacy, h.0, h.1) refl

  -- A service to which addresses were assigned, the first of them not the empty text, is not
  -- changed when it is synchronised again: nothing is read or written in the cluster, the address
  -- manager keeps its pools, and the reply is the service's status.
  pub sync_load_balancer-assign_vips :
      (vips interface : String) (recent : Service) (cm_name cm_namespace : String)
      (w : World K N order)
      → is_empty (first_text (split b',' vips)) ≡ false
      → sync_load_balancer K N order (assign_vips vips interface recent) cm_name cm_namespace w
        ≡ (w, with_status (assign_vips vips interface recent))
  sync_load_balancer-assign_vips vips interface recent cm_name cm_namespace w first =
      sync_load_balancer-IsSettled _ cm_name cm_namespace w
        (assign_vips-IsSettled vips interface recent first)
