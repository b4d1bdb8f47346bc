-- ===== src/Provider/Controller/Queue.antt =====
-- The work queue of the controller: processNextWorkItem and syncService of
-- pkg/provider/loadbalancerclass.go.
pub mod Pending
pub mod Served
use kube_vip_cloud_provider.Prelude.{
  ℕ, zero, suc, String, Bool, true, false, Option, none, some, [], if◌then◌else◌, GoError, Result,
  err, ok,
}
use kube_vip_cloud_provider.Netipx.{Netipx}
use kube_vip_cloud_provider.Kube.{Service}
use kube_vip_cloud_provider.Provider.Cluster.{Cluster}
use kube_vip_cloud_provider.Provider.Sharing.{PortMap}
use kube_vip_cloud_provider.Provider.Sync.{World}
use kube_vip_cloud_provider.Provider.Controller.{Processed, process_service_create_or_update}

-- An item of the queue: the key of a service, or an object that is no text.
pub data Item : Type 0 where
  key : String → Item
  no_text : Item

-- workqueue.RateLimitingInterface: Get, which has no item once the queue is shut down, Done, Forget,
-- Add and AddRateLimited
pub record WorkQueue : Type 1 where
  pub Queue : Type 0
  pub get_item : Queue → Queue × Option Item
  pub done : Item → Queue → Queue
  pub forget : Item → Queue → Queue
  pub add_item : String → Queue → Queue
  pub add_rate_limited : String → Queue → Queue

-- What the lister finds in the informer's cache.
pub data Cached : Type 0 where
  cached : Service → Cached
  not_found : Cached
  unavailable : GoError → Cached

-- cache.SplitMetaNamespaceKey, and the lister of services
pub record Informer : Type 0 where
  pub split_key : String → Result (String × String)
  pub find_cached : String → String → Cached

module _ (K : Cluster) (N : Netipx) (order : PortMap → PortMap) where
  module _ (informer : Informer) (cm_name cm_namespace : String) where
    abbrev pub unchanged : World K N order → Option GoError → Processed K N order
    unchanged w e = record { world = w; events = []; error = e }

    abbrev pub sync_cached : World K N order → Cached → Processed K N order
    sync_cached w (cached svc) =
        process_service_create_or_update K N order svc cm_name cm_namespace w
    sync_cached w not_found = unchanged w none
    sync_cached w (unavailable e) = unchanged w (some e)

    abbrev pub sync_named : World K N order → Result (String × String) → Processed K N order
    sync_named w (err e) = unchanged w (some e)
    sync_named w (ok (namespace, name)) = sync_cached w (informer.find_cached namespace name)

    unfoldable pub sync_service : String → World K N order → Processed K N order
    sync_service k w = sync_named w (informer.split_key k)

    module _ (W : WorkQueue) where
      -- The queue, the world, and whether the worker goes on.
      pub record Turn : Type 0 where
        pub queue : W.Queue
        pub world : World K N order
        pub goes_on : Bool

      abbrev pub requeue : String → Option GoError → W.Queue → W.Queue
      requeue k none q = W.forget (key k) q
      requeue k (some e) q = W.add_rate_limited k q

      abbrev pub process_item : World K N order → W.Queue × Option Item → Turn
      process_item w (q, none) = record { queue = q; world = w; goes_on = false }
      process_item w (q, some no_text) = record {
        queue = W.done no_text (W.forget no_text q);
        world = w;
        goes_on = true;
      }
      process_item w (q, some (key k)) =
          let p = sync_service k w in
          record { queue = W.done (key k) (requeue k p.error q); world = p.world; goes_on = true }

      unfoldable pub process_next_work_item : W.Queue → World K N order → Turn
      process_next_work_item q w = process_item w (W.get_item q)

      -- `for c.processNextWorkItem() {}`, for at most `turns` items
      unfoldable pub run_worker : ℕ → W.Queue → World K N order → Turn
      unfolding process_next_work_item
      run_worker zero q w = record { queue = q; world = w; goes_on = true }
      run_worker (suc turns) q w =
          let turn = process_next_work_item q w in
          let rest = run_worker turns turn.queue turn.world in if turn.goes_on then rest else turn
