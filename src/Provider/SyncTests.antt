-- ===== src/Provider/SyncTests.antt =====
-- The theorems on the reconciliation and on the controller at a cluster of two services.
use kube_vip_cloud_provider.Prelude.{
  String, ◌≡◌, refl, ◌≢◌, ◌↔◌, true, false, none, some, List, [], ◌∷◌, split, is_empty,
}
use kube_vip_cloud_provider.Netipx.Model.{model}
use kube_vip_cloud_provider.Netipx.Model.Laws.{model-SetLaws}
use kube_vip_cloud_provider.Netipx.Model.Adding.{model-AddLaws}
use kube_vip_cloud_provider.Kube.{Service}
use kube_vip_cloud_provider.Kube.GoMap.{get}
use kube_vip_cloud_provider.Provider.Cluster.Store.{store, store-RetryLaws, cleanup_finalizer}
use kube_vip_cloud_provider.Provider.Sharing.{loadbalancer_ips_annotation}
use kube_vip_cloud_provider.Provider.Sync.{
  is_annotated, first_text, World, with_status, assign_vips, sync_load_balancer,
}
use kube_vip_cloud_provider.Provider.Sync.Settled.{sync_load_balancer-assign_vips}
use kube_vip_cloud_provider.Provider.Sync.Fresh.{IsAssigned, sync_load_balancer-IsAssigned}
use kube_vip_cloud_provider.Provider.Controller.{needs_update, process_service_create_or_update}
use kube_vip_cloud_provider.Provider.Controller.Update.{IsUnchanged, needs_update-IsUnchanged}
use kube_vip_cloud_provider.Provider.Controller.Finalizer.{
  Has, process_service_create_or_update-remove_finalizer,
}
use kube_vip_cloud_provider.Provider.Fixtures.{
  provider_code, port_of, web, new_service, kubevip, in_order, in_order-IsListing,
}

abbrev pub api : Service
api = new_service (port_of 443 ∷ [])

abbrev pub world_of : List Service → World store model in_order
world_of services = record {
  cluster = record {
    services = services;
    config_maps = kubevip (("cidr-global", "10.0.0.8/30") ∷ []) ∷ [];
  };
  managers = [];
}

abbrev pub before : World store model in_order
before = world_of (web ∷ api ∷ [])

abbrev first_annotation : List Service → String
first_annotation [] = ""
first_annotation (svc ∷ _) = get loadbalancer_ips_annotation svc.annotations

abbrev after_first : List Service → List Service
after_first [] = []
after_first (_ ∷ svcs) = svcs

-- 10.0.0.8 belongs to the other service.
next_address :
    first_annotation (
      after_first
        (sync_load_balancer store model in_order api "kubevip" "kube-system"
          before).0.cluster.services)
    ≡ "10.0.0.9"
unfolding provider_code
next_address = refl

no_error :
    (sync_load_balancer store model in_order api "kubevip" "kube-system" before).1.error ≡ none
unfolding provider_code
no_error = refl

not_annotated : is_annotated api ≡ false
unfolding provider_code
not_annotated = refl

sync_load_balancer-IsAssigned_example :
    IsAssigned store api "kubevip" "kube-system" before.cluster
      (sync_load_balancer store model in_order api "kubevip" "kube-system" before).0.cluster
sync_load_balancer-IsAssigned_example =
    sync_load_balancer-IsAssigned store model in_order model-SetLaws model-AddLaws
      in_order-IsListing store-RetryLaws api "kubevip" "kube-system" before refl not_annotated
      no_error

first_there : is_empty (first_text (split b',' "10.0.0.9")) ≡ false
unfolding provider_code
first_there = refl

sync_load_balancer-assign_vips_example :
    sync_load_balancer store model in_order
      (assign_vips "10.0.0.9" "" api)
      "kubevip"
      "kube-system"
      before
    ≡ (before, with_status (assign_vips "10.0.0.9" "" api))
sync_load_balancer-assign_vips_example =
    sync_load_balancer-assign_vips store model in_order "10.0.0.9" "" api "kubevip" "kube-system"
      before first_there

needs_update-IsUnchanged_example :
    ((needs_update api (record api { external_ips = "10.9.9.9" ∷ [] })).0 ≡ false)
    ↔ IsUnchanged api (record api { external_ips = "10.9.9.9" ∷ [] })
needs_update-IsUnchanged_example =
    needs_update-IsUnchanged api (record api { external_ips = "10.9.9.9" ∷ [] })

-- A service that is being deleted.
abbrev deleted : Service
deleted = record api { finalizers = cleanup_finalizer ∷ []; deletion_timestamp = some 7 }

has_finalizer : store.has_lb_finalizer deleted ≡ true
unfolding provider_code
has_finalizer = refl

process_service_create_or_update-remove_finalizer_example :
    (new : Service) × ((process_service_create_or_update store model in_order deleted "kubevip"
        "kube-system" before).world
      ≡ record before { cluster = (store.patch_service deleted new before.cluster).0 })
    × ((f : String) → Has f new.finalizers ↔ (Has f deleted.finalizers × (f ≢ store.lb_finalizer)))
process_service_create_or_update-remove_finalizer_example =
    process_service_create_or_update-remove_finalizer store model in_order deleted "kubevip"
      "kube-system" before refl has_finalizer
