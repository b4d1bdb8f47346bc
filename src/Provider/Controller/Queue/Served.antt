-- ===== src/Provider/Controller/Queue/Served.antt =====
-- The order in which runWorker of pkg/provider/loadbalancerclass.go takes the keys of a queue that
-- gives them out first in, first out.
use mathlib.Core.List.{append_assoc}
use kube_vip_cloud_provider.Prelude.{
  String, ◌≡◌, refl, ap, ◌∙◌, true, Option, none, some, List, [], ◌∷◌, ◌++◌, length, GoError,
}
use kube_vip_cloud_provider.Netipx.{Netipx}
use kube_vip_cloud_provider.Provider.Cluster.{Cluster}
use kube_vip_cloud_provider.Provider.Sharing.{PortMap}
use kube_vip_cloud_provider.Provider.Sync.{World}
use kube_vip_cloud_provider.Provider.Controller.Queue.{
  Item, key, no_text, WorkQueue, Informer, sync_service, requeue, process_item,
  process_next_work_item, run_worker,
}

-- The items that wait, the first one in front. Get takes that one; the other operations leave what
-- waits in place, and may put something behind it.
pub record FifoLaws (W : WorkQueue) : Type 0 where
  pub waiting : W.Queue → List Item
  pub get_first :
      (q : W.Queue) (item : Item) (items : List Item)
      → waiting q ≡ item ∷ items
      → ((W.get_item q).1 ≡ some item) × (waiting (W.get_item q).0 ≡ items)
  pub done_extends :
      (item : Item) (q : W.Queue)
      → (more : List Item) × (waiting (W.done item q) ≡ waiting q ++ more)
  pub forget_extends :
      (item : Item) (q : W.Queue)
      → (more : List Item) × (waiting (W.forget item q) ≡ waiting q ++ more)
  pub add_extends :
      (k : String) (q : W.Queue)
      → (more : List Item) × (waiting (W.add_rate_limited k q) ≡ waiting q ++ more)

module _ (K : Cluster) (N : Netipx) (order : PortMap → PortMap) (informer : Informer) where
  module _ (cm_name cm_namespace : String) (W : WorkQueue) (F : FifoLaws W) where
    abbrev Extends : W.Queue → W.Queue → Type 0
    Extends q q' = (more : List Item) × (F.waiting q' ≡ F.waiting q ++ more)

    Extends-further : (q q' q'' : W.Queue) → Extends q q' → Extends q' q'' → Extends q q''
    Extends-further q q' q'' (more, e) (more', e') =
        (more ++ more', e' ∙ ap (λ items. items ++ more') e ∙ append_assoc (F.waiting q) more more')

    requeue-Extends :
        (j : String) (e : Option GoError) (q : W.Queue)
        → Extends q (requeue K N order informer cm_name cm_namespace W j e q)
    requeue-Extends j none q = F.forget_extends (key j) q
    requeue-Extends j (some e) q = F.add_extends j q

    item-Extends :
        (w : World K N order) (x : W.Queue × Option Item) (item : Item)
        → x.1 ≡ some item
        → let turn = process_item K N order informer cm_name cm_namespace W w x in
          (turn.goes_on ≡ true) × Extends x.0 turn.queue
    item-Extends w (q, none) item h = cc
    item-Extends w (q, some no_text) item h =
        (refl, Extends-further q _ _ (F.forget_extends no_text q) (F.done_extends no_text _))
    item-Extends w (q, some (key j)) item h =
        (refl, Extends-further q _ _ (requeue-Extends j _ q) (F.done_extends (key j) _))

    key_reconciled :
        (w : World K N order) (x : W.Queue × Option Item) (k : String)
        → x.1 ≡ some (key k)
        → (process_item K N order informer cm_name cm_namespace W w x).world
          ≡ (sync_service K N order informer cm_name cm_namespace k w).world
    key_reconciled w (q, none) k h = cc
    key_reconciled w (q, some no_text) k h = absurd (cc h)
    key_reconciled w (q, some (key j)) k h = let same : j ≡ k = cc in rw same refl

    -- No key starves: with `n` items in front of a key, the worker goes on for `n` turns and takes
    -- that key in the next one, in which it reconciles the key's service, whatever became of the
    -- items before.
    pub run_worker-Served :
        (k : String) (before after : List Item) (q : W.Queue) (w : World K N order)
        → F.waiting q ≡ before ++ key k ∷ after
        → let t = run_worker K N order informer cm_name cm_namespace W (length before) q w in
          (t.goes_on ≡ true)
          × ((W.get_item t.queue).1 ≡ some (key k))
          × ((process_next_work_item K N order informer cm_name cm_namespace W t.queue
                t.world).world
              ≡ (sync_service K N order informer cm_name cm_namespace k t.world).world)
    unfolding run_worker process_next_work_item
    run_worker-Served k [] after q w h =
        let (taken, _) = F.get_first q (key k) after h in
        (refl, taken, key_reconciled w (W.get_item q) k taken)
    run_worker-Served k (item ∷ before) after q w h =
        let turn = process_next_work_item K N order informer cm_name cm_namespace W q w in
        let (taken, left) = F.get_first q item (before ++ key k ∷ after) h in
        let (on, (more, e)) = item-Extends w (W.get_item q) item taken in
        let rest : F.waiting turn.queue ≡ before ++ key k ∷ (after ++ more) =
          e ∙ ap (λ items. items ++ more) left ∙ append_assoc before (key k ∷ after) more in
        rw (run_worker, on) (run_worker-Served k before (after ++ more) turn.queue turn.world rest)
