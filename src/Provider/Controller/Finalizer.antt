-- ===== src/Provider/Controller/Finalizer.antt =====
-- The finalizer that keeps a service until its load balancer is cleaned up.
use kube_vip_cloud_provider.Prelude.{
  none, Option, String, ◌≡◌, refl, sym, ◌∙◌, ◌≢◌, ◌↔◌, inl, inr, true, false, Option, none, some,
  List, [], ◌∷◌, str_eq, eq_iff, Bool-cases, Any, GoError,
}
use kube_vip_cloud_provider.Netipx.{Netipx}
use kube_vip_cloud_provider.Kube.{Service}
use kube_vip_cloud_provider.Provider.Cluster.{Cluster}
use kube_vip_cloud_provider.Provider.Sharing.{PortMap}
use kube_vip_cloud_provider.Provider.Vips.{Managers}
use kube_vip_cloud_provider.Provider.Sync.{World}
use kube_vip_cloud_provider.Provider.Controller.{
  after_removal, remove_string, is_zero_time, remove_finalizer, process_service_create_or_update,
}

-- The text is in the list.
abbrev pub Has : String → List String → Type 0
Has x = Any (λ y. y ≡ x)

remove_string_iff :
    (x s : String) (items : List String) → Has x (remove_string items s) ↔ (Has x items × (x ≢ s))
unfolding remove_string
remove_string_iff x s [] = (λ h. absurd h, λ (h, _). h)
remove_string_iff x s (item ∷ items) = elim (Bool-cases (str_eq item s)) [
  | inl e ↦
      let same : item ≡ s = (eq_iff item s).0 e in
      rw (remove_string, e)
        (
          λ h. (let (m, n) = (remove_string_iff x s items).0 h in (inr m, n)),
          λ (h, n). elim h [
            | inl here ↦ absurd (n (sym here ∙ same))
            | inr there ↦ (remove_string_iff x s items).1 (there, n)
          ],
        )
  | inr e ↦
      rw (remove_string, e)
        (
          λ h. elim h [
            | inl here ↦ (
              inl here,
              λ same. cc (let q : str_eq item s ≡ true = (eq_iff item s).1 (here ∙ same) in q),
            )
            | inr there ↦ (let (m, n) = (remove_string_iff x s items).0 there in (inr m, n))
          ],
          λ (h, n). elim h [
            | inl here ↦ inl here
            | inr there ↦ inr ((remove_string_iff x s items).1 (there, n))
          ],
        )
]

module _ (K : Cluster) where
  module _ (N : Netipx) (order : PortMap → PortMap) (svc : Service) where
    removal_world :
        (ms : Managers N) (o : K.State × Option GoError)
        → (after_removal K N order ms o).world ≡ record { cluster = o.0; managers = ms }
    removal_world ms (st, none) = refl
    removal_world ms (st, some e) = refl

    -- A service that is being deleted and has the finalizer is patched once: the patched service
    -- has the same finalizers but that one. The address manager is not asked, so the pools are
    -- kept as they are.
    pub process_service_create_or_update-remove_finalizer :
        (cm_name cm_namespace : String) (w : World K N order)
        → is_zero_time svc.deletion_timestamp ≡ false
        → K.has_lb_finalizer svc ≡ true
        → (new : Service) × ((process_service_create_or_update K N order svc cm_name cm_namespace
              w).world
            ≡ record w { cluster = (K.patch_service svc new w.cluster).0 })
          × ((f : String) → Has f new.finalizers ↔ (Has f svc.finalizers × (f ≢ K.lb_finalizer)))
    unfolding process_service_create_or_update remove_finalizer
    process_service_create_or_update-remove_finalizer cm_name cm_namespace w deleted has = (
      record svc { finalizers = remove_string svc.finalizers K.lb_finalizer },
      rw (process_service_create_or_update, deleted, remove_finalizer, has)
          (removal_world w.managers _),
      λ f. remove_string_iff f K.lb_finalizer svc.finalizers,
    )
