-- ===== src/Provider/Controller/System.antt =====
-- The controller at work, of pkg/provider/loadbalancerclass.go: enqueueService, the event handlers
-- that newLoadbalancerClassServiceController registers, and runs in which the informer's events, the
-- worker's turns and the writes of others come in any order.
pub mod Lost
pub mod Unwanted
use kube_vip_cloud_provider.Prelude.{
  ℕ, zero, suc, ◌+◌, ◌-◌, ◌*◌, ◌/◌, ◌%◌, ◌^◌, ◌≤◌, ◌<◌, String, ◌≡◌, refl, sym, ap, ◌∙◌, subst, ◌≢◌,
  ◌↔◌, ◌⊎◌, inl, inr, Bool, true, false, not, ◌&&◌, ◌||◌, Option, none, some, List, [], ◌∷◌, ◌++◌,
  map, arith, str_eq, eq_iff, ltb, leb, ◌==◌, if◌then◌else◌, ==_iff, Bool-cases, Option-cases,
  split, contains_byte, is_empty, concat, join, append_text, first_code, length, All, Any, GoError,
  Result, ◌>>=◌, Result-cases, >>=-eq-ok, out_of_ips, errorf, foreign, diverged, err, ok,
}
use kube_vip_cloud_provider.Netipx.{Netipx}
use kube_vip_cloud_provider.Kube.{Service}
use kube_vip_cloud_provider.Provider.Cluster.{Cluster}
use kube_vip_cloud_provider.Provider.Sharing.{PortMap}
use kube_vip_cloud_provider.Provider.Sync.{World}
use kube_vip_cloud_provider.Provider.Controller.{on_add, on_update}
use kube_vip_cloud_provider.Provider.Controller.Queue.{
  Item, key, WorkQueue, Informer, Turn, sync_service, process_next_work_item,
}

-- cache.MetaNamespaceKeyFunc
abbrev pub KeyFunc : Type 0
KeyFunc = Service → Result String

module _ (key_of : KeyFunc) (W : WorkQueue) where
  abbrev pub added_key : Result String → W.Queue → W.Queue
  added_key (err e) q = q
  added_key (ok k) q = W.add_item k q

  unfoldable pub enqueue_service : Service → W.Queue → W.Queue
  enqueue_service svc q = added_key (key_of svc) q

  module _ (K : Cluster) where
    -- AddFunc and UpdateFunc, for an object that is a service or none
    unfoldable pub add_func : Option Service → W.Queue → W.Queue
    add_func none q = q
    add_func (some cur) q = if on_add K cur then enqueue_service cur q else q

    unfoldable pub update_func : Option Service → Option Service → W.Queue → W.Queue
    update_func (some old) (some cur) q = if on_update K old cur then enqueue_service cur q else q
    update_func _ _ q = q

module _ (K : Cluster) (N : Netipx) (order : PortMap → PortMap) (key_of : KeyFunc)
    (W : WorkQueue) where
  -- The informer's cache, the work queue, and the world of a reconciliation.
  pub record State : Type 0 where
    pub informer : Informer
    pub queue : W.Queue
    pub world : World K N order

  module _ (cm_name cm_namespace : String) where
    abbrev pub turn_of : (s : State) → Turn K N order s.informer cm_name cm_namespace W
    turn_of s = process_next_work_item K N order s.informer cm_name cm_namespace W s.queue s.world

    -- What happens next: an event of the informer, whose cache may have changed in any way, a turn
    -- of the worker, or a write to the cluster by somebody else.
    pub data Step : State → State → Type 0 where
      added :
          (s : State) (cache : Informer) (cur : Option Service)
          → Step s (record s { informer = cache; queue = add_func key_of W K cur s.queue })
      updated :
          (s : State) (cache : Informer) (old cur : Option Service)
          → Step s (record s { informer = cache; queue = update_func key_of W K old cur s.queue })
      deleted : (s : State) (cache : Informer) → Step s (record s { informer = cache })
      worked :
          (s : State) → Step s (record s { queue = (turn_of s).queue; world = (turn_of s).world })
      written :
          (s : State) (st : K.State) → Step s (record s { world = record s.world { cluster = st } })

    -- A turn of the worker that takes the key and reconciles its service with no error.
    abbrev pub Serves : (k : String) {s t : State} → Step s t → Type 0
    Serves k (worked s) =
        ((W.get_item s.queue).1 ≡ some (key k))
        × ((sync_service K N order s.informer cm_name cm_namespace k s.world).error ≡ none)
    Serves k _ = ⊥

    -- An event that puts the key into the queue.
    abbrev pub CallsFor : (k : String) {s t : State} → Step s t → Type 0
    CallsFor k (added s cache (some cur)) = (on_add K cur ≡ true) × (key_of cur ≡ ok k)
    CallsFor k (updated s cache (some old) (some cur)) =
        (on_update K old cur ≡ true) × (key_of cur ≡ ok k)
    CallsFor k _ = ⊥

    -- Any number of steps, none of which serves the key.
    pub data Unserved (k : String) (s : State) : State → Type 0 where
      here : Unserved k s s
      next : {t u : State} → Unserved k s t → (step : Step t u) → ¬ Serves k step → Unserved k s u
