-- ===== src/Provider/Controller/Queue/Pending.antt =====
-- The keys that stay in the work queue while runWorker of loadbalancerclass.go takes items.
use kube_vip_cloud_provider.Prelude.{
  String, ◌≡◌, refl, subst, ◌≢◌, ◌⊎◌, inl, inr, Option, none, some, GoError,
}
use kube_vip_cloud_provider.Netipx.{Netipx}
use kube_vip_cloud_provider.Provider.Cluster.{Cluster}
use kube_vip_cloud_provider.Provider.Sharing.{PortMap}
use kube_vip_cloud_provider.Provider.Sync.{World}
use kube_vip_cloud_provider.Provider.Controller.Queue.{
  Item, key, no_text, WorkQueue, Informer, sync_service, requeue, process_item,
}

-- A key is pending from the time it is added until it is taken: taking one item, or finishing or
-- forgetting one, does not lose the others.
pub record QueueLaws (W : WorkQueue) : Type 1 where
  pub Pending : String → W.Queue → Type 0
  pub get_keeps :
      (k : String) (q : W.Queue)
      → Pending k q
      → ((W.get_item q).1 ≡ some (key k)) ⊎ Pending k (W.get_item q).0
  pub done_keeps :
      (k : String) (item : Item) (q : W.Queue) → Pending k q → Pending k (W.done item q)
  pub forget_keeps :
      (k : String) (item : Item) (q : W.Queue) → Pending k q → Pending k (W.forget item q)
  pub add_item_keeps : (k j : String) (q : W.Queue) → Pending k q → Pending k (W.add_item j q)
  pub add_item_pending : (k : String) (q : W.Queue) → Pending k (W.add_item k q)
  pub add_keeps : (k j : String) (q : W.Queue) → Pending k q → Pending k (W.add_rate_limited j q)
  pub add_pending : (k : String) (q : W.Queue) → Pending k (W.add_rate_limited k q)

module _ (K : Cluster) (N : Netipx) (order : PortMap → PortMap) (informer : Informer) where
  module _ (cm_name cm_namespace : String) (W : WorkQueue) (Q : QueueLaws W) (k : String) where
    requeue_keeps :
        (j : String) (e : Option GoError) (q : W.Queue)
        → Q.Pending k q
        → Q.Pending k (requeue K N order informer cm_name cm_namespace W j e q)
    requeue_keeps j none q h = Q.forget_keeps k (key j) q h
    requeue_keeps j (some e) q h = Q.add_keeps k j q h

    failed_is_requeued :
        (e : Option GoError) (q : W.Queue)
        → e ≢ none
        → Q.Pending k (requeue K N order informer cm_name cm_namespace W k e q)
    failed_is_requeued none q h = absurd (h refl)
    failed_is_requeued (some e) q h = Q.add_pending k q

    -- One item, unless it is the key and its reconciliation returns no error.
    pub item_keeps :
        (w : World K N order) (x : W.Queue × Option Item)
        → ¬ (
            (x.1 ≡ some (key k))
            × ((sync_service K N order informer cm_name cm_namespace k w).error ≡ none))
        → (x.1 ≡ some (key k)) ⊎ Q.Pending k x.0
        → Q.Pending k (process_item K N order informer cm_name cm_namespace W w x).queue
    item_keeps w (q, none) missed (inl taken) = absurd (cc taken)
    item_keeps w (q, none) missed (inr h) = h
    item_keeps w (q, some no_text) missed (inl taken) = absurd (cc taken)
    item_keeps w (q, some no_text) missed (inr h) =
        Q.done_keeps k no_text _ (Q.forget_keeps k no_text q h)
    item_keeps w (q, some (key j)) missed (inr h) = Q.done_keeps k (key j) _ (requeue_keeps j _ q h)
    item_keeps w (q, some (key j)) missed (inl taken) =
        let same : k ≡ j = cc in
        Q.done_keeps k (key j) _ (
          subst
            (λ i. Q.Pending k (
              requeue K N order informer cm_name cm_namespace W i
                (sync_service K N order informer cm_name cm_namespace i w).error q))
            same (failed_is_requeued _ q (λ e. missed (taken, e))))
