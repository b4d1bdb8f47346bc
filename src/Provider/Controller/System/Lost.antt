-- ===== src/Provider/Controller/System/Lost.antt =====
-- What becomes of a change of a service while the controller works.
use kube_vip_cloud_provider.Prelude.{
  String, ◌≡◌, inl, inr, Option, none, some, Bool-cases, Result, err, ok,
}
use kube_vip_cloud_provider.Netipx.{Netipx}
use kube_vip_cloud_provider.Kube.{Service}
use kube_vip_cloud_provider.Provider.Cluster.{Cluster}
use kube_vip_cloud_provider.Provider.Sharing.{PortMap}
use kube_vip_cloud_provider.Provider.Controller.{on_add, on_update}
use kube_vip_cloud_provider.Provider.Controller.Queue.{WorkQueue, process_next_work_item}
use kube_vip_cloud_provider.Provider.Controller.Queue.Pending.{item_keeps, QueueLaws}
use kube_vip_cloud_provider.Provider.Controller.System.{
  KeyFunc, added_key, enqueue_service, add_func, update_func, State, Step, added, updated, deleted,
  worked, written, Serves, CallsFor, Unserved, here, next,
}

module _ (K : Cluster) (N : Netipx) (order : PortMap → PortMap) (key_of : KeyFunc)
    (W : WorkQueue) where
  module _ (Q : QueueLaws W) (k : String) where
    added_key_keeps :
        (r : Result String) (q : W.Queue) → Q.Pending k q → Q.Pending k (added_key key_of W r q)
    added_key_keeps (ok j) q h = Q.add_item_keeps k j q h
    added_key_keeps (err e) q h = h

    add_func_keeps :
        (cur : Option Service) (q : W.Queue)
        → Q.Pending k q
        → Q.Pending k (add_func key_of W K cur q)
    unfolding add_func enqueue_service
    add_func_keeps none q h = h
    add_func_keeps (some cur) q h = elim (Bool-cases (on_add K cur)) [
      | inl e ↦ rw (add_func, e) (added_key_keeps (key_of cur) q h)
      | inr e ↦ rw (add_func, e) h
    ]

    update_func_keeps :
        (old cur : Option Service) (q : W.Queue)
        → Q.Pending k q
        → Q.Pending k (update_func key_of W K old cur q)
    unfolding update_func enqueue_service
    update_func_keeps none cur q h = h
    update_func_keeps (some old) none q h = h
    update_func_keeps (some old) (some cur) q h = elim (Bool-cases (on_update K old cur)) [
      | inl e ↦ rw (update_func, e) (added_key_keeps (key_of cur) q h)
      | inr e ↦ rw (update_func, e) h
    ]

    enqueued :
        (cur : Service) (q : W.Queue)
        → key_of cur ≡ ok k
        → Q.Pending k (enqueue_service key_of W cur q)
    unfolding enqueue_service
    enqueued cur q e = rw (enqueue_service, e) (Q.add_item_pending k q)

    module _ (cm_name cm_namespace : String) where
      step_keeps :
          {s t : State K N order key_of W} (step : Step K N order key_of W cm_name cm_namespace s t)
          → ¬ Serves K N order key_of W cm_name cm_namespace k step
          → Q.Pending k s.queue
          → Q.Pending k t.queue
      unfolding process_next_work_item
      step_keeps (added s cache cur) missed h = add_func_keeps cur s.queue h
      step_keeps (updated s cache old cur) missed h = update_func_keeps old cur s.queue h
      step_keeps (deleted s cache) missed h = h
      step_keeps (worked s) missed h =
          item_keeps K N order s.informer cm_name cm_namespace W Q k s.world (W.get_item s.queue)
            missed (Q.get_keeps k s.queue h)
      step_keeps (written s st) missed h = h

      run_keeps :
          {s t : State K N order key_of W}
          → Unserved K N order key_of W cm_name cm_namespace k s t
          → Q.Pending k s.queue
          → Q.Pending k t.queue
      run_keeps here h = h
      run_keeps (next run step missed) h = step_keeps step missed (run_keeps run h)

      called_is_pending :
          {s t : State K N order key_of W} (step : Step K N order key_of W cm_name cm_namespace s t)
          → CallsFor K N order key_of W cm_name cm_namespace k step
          → Q.Pending k t.queue
      unfolding add_func update_func
      called_is_pending (added s cache (some cur)) (wants, e) =
          rw (add_func, wants) (enqueued cur s.queue e)
      called_is_pending (updated s cache (some old) (some cur)) (wants, e) =
          rw (update_func, wants) (enqueued cur s.queue e)
      called_is_pending (added _ cache none) calls = absurd calls
      called_is_pending (updated _ cache none cur) calls = absurd calls
      called_is_pending (updated _ cache (some old) none) calls = absurd calls
      called_is_pending (deleted _ cache) calls = absurd calls
      called_is_pending (worked _) calls = absurd calls
      called_is_pending (written _ st) calls = absurd calls

      -- No change is lost: after an event that calls for the reconciliation of a service, its key
      -- is pending in every state that the controller reaches, whatever other events, turns of the
      -- worker and writes to the cluster come in between, as long as no turn has reconciled the
      -- service with no error.
      pub Unserved-Pending :
          {s t u : State K N order key_of W}
          (step : Step K N order key_of W cm_name cm_namespace s t)
          → CallsFor K N order key_of W cm_name cm_namespace k step
          → Unserved K N order key_of W cm_name cm_namespace k t u
          → Q.Pending k u.queue
      Unserved-Pending step calls run = run_keeps run (called_is_pending step calls)
