-- ===== src/Provider/Controller/System/Unwanted.antt =====
-- A service that is no load balancer any more while the controller works.
use kube_vip_cloud_provider.Prelude.{
  String, ◌≡◌, sym, ap, ◌∙◌, ◌≢◌, inl, inr, true, Option, none, some, arith, eq_iff, Bool-cases,
  GoError, Result-cases, ok,
}
use kube_vip_cloud_provider.Netipx.{Netipx}
use kube_vip_cloud_provider.Kube.{Service}
use kube_vip_cloud_provider.Provider.Cluster.{Cluster}
use kube_vip_cloud_provider.Provider.Sharing.{PortMap}
use kube_vip_cloud_provider.Provider.Sync.{World}
use kube_vip_cloud_provider.Provider.Controller.{on_add, on_update, wants_load_balancer}
use kube_vip_cloud_provider.Provider.Controller.Queue.{
  Item, key, no_text, WorkQueue, Informer, requeue, process_item, process_next_work_item,
}
use kube_vip_cloud_provider.Provider.Controller.System.{
  KeyFunc, enqueue_service, add_func, update_func, State, Step, added, updated, deleted, worked,
  written,
}

-- A key is absent if it neither waits, at once or after a delay, nor is being worked on. It stays so
-- until it is added itself.
pub record AbsenceLaws (W : WorkQueue) : Type 1 where
  pub Absent : String → W.Queue → Type 0
  pub get_other :
      (k : String) (q : W.Queue)
      → Absent k q
      → ((W.get_item q).1 ≢ some (key k)) × Absent k (W.get_item q).0
  pub done_absent : (k : String) (item : Item) (q : W.Queue) → Absent k q → Absent k (W.done item q)
  pub forget_absent :
      (k : String) (item : Item) (q : W.Queue) → Absent k q → Absent k (W.forget item q)
  pub add_item_absent :
      (k j : String) (q : W.Queue) → k ≢ j → Absent k q → Absent k (W.add_item j q)
  pub add_absent :
      (k j : String) (q : W.Queue) → k ≢ j → Absent k q → Absent k (W.add_rate_limited j q)

wanted_type : (svc : Service) → wants_load_balancer svc ≡ true → svc.type ≡ "LoadBalancer"
unfolding wants_load_balancer
wanted_type svc h = (eq_iff svc.type "LoadBalancer").0 (ground arith)

updated_type :
    (K : Cluster) (old cur : Service) → on_update K old cur ≡ true → cur.type ≡ "LoadBalancer"
unfolding on_update
updated_type K old cur h = wanted_type cur (ground arith)

module _ (K : Cluster) (N : Netipx) (order : PortMap → PortMap) (key_of : KeyFunc)
    (W : WorkQueue) where
  module _ (cm_name cm_namespace : String) (k : String) where
    -- No event of the step shows a service of the key as a load balancer.
    abbrev pub ShowsNone :
        {s t : State K N order key_of W} → Step K N order key_of W cm_name cm_namespace s t → Type 0
    ShowsNone (added s cache (some cur)) = key_of cur ≡ ok k → cur.type ≢ "LoadBalancer"
    ShowsNone (updated s cache old (some cur)) = key_of cur ≡ ok k → cur.type ≢ "LoadBalancer"
    ShowsNone _ = Unit {0}

    -- Any number of such steps.
    pub data Unwanted (s : State K N order key_of W) : State K N order key_of W → Type 0 where
      start : Unwanted s s
      after :
          {t u : State K N order key_of W}
          → Unwanted s t
          → (step : Step K N order key_of W cm_name cm_namespace t u) → ShowsNone step
          → Unwanted s u

  module _ (A : AbsenceLaws W) (k : String) where
    enqueued_absent :
        (cur : Service) (q : W.Queue)
        → ¬ (key_of cur ≡ ok k)
        → A.Absent k q
        → A.Absent k (enqueue_service key_of W cur q)
    unfolding enqueue_service
    enqueued_absent cur q other h = elim (Result-cases (key_of cur)) [
      | inl (j, e) ↦
          rw (enqueue_service, e) (A.add_item_absent k j q (λ same. other (e ∙ ap ok (sym same))) h)
      | inr (x, e) ↦ rw (enqueue_service, e) h
    ]

    add_func_absent :
        (cur : Service) (q : W.Queue)
        → (key_of cur ≡ ok k → cur.type ≢ "LoadBalancer")
        → A.Absent k q
        → A.Absent k (add_func key_of W K (some cur) q)
    unfolding add_func on_add
    add_func_absent cur q none_ h = elim (Bool-cases (wants_load_balancer cur)) [
      | inl e ↦ rw (add_func, e) (enqueued_absent cur q (λ own. none_ own (wanted_type cur e)) h)
      | inr e ↦ rw (add_func, e) h
    ]

    update_func_absent :
        (old cur : Service) (q : W.Queue)
        → (key_of cur ≡ ok k → cur.type ≢ "LoadBalancer")
        → A.Absent k q
        → A.Absent k (update_func key_of W K (some old) (some cur) q)
    unfolding update_func
    update_func_absent old cur q none_ h = elim (Bool-cases (on_update K old cur)) [
      | inl e ↦
          rw (update_func, e)
            (enqueued_absent cur q (λ own. none_ own (updated_type K old cur e)) h)
      | inr e ↦ rw (update_func, e) h
    ]

    module _ (informer : Informer) (cm_name cm_namespace : String) where
      requeue_absent :
          (j : String) (e : Option GoError) (q : W.Queue)
          → k ≢ j
          → A.Absent k q
          → A.Absent k (requeue K N order informer cm_name cm_namespace W j e q)
      requeue_absent j none q other h = A.forget_absent k (key j) q h
      requeue_absent j (some e) q other h = A.add_absent k j q other h

      item_absent :
          (w : World K N order) (x : W.Queue × Option Item)
          → (x.1 ≢ some (key k)) × A.Absent k x.0
          → A.Absent k (process_item K N order informer cm_name cm_namespace W w x).queue
      item_absent w (q, none) (_, h) = h
      item_absent w (q, some no_text) (_, h) =
          A.done_absent k no_text _ (A.forget_absent k no_text q h)
      item_absent w (q, some (key j)) (other, h) =
          A.done_absent k (key j) _
            (requeue_absent j _ q (λ same. other (ap (λ i. some (key i)) (sym same))) h)

    module _ (cm_name cm_namespace : String) where
      step_absent :
          {s t : State K N order key_of W} (step : Step K N order key_of W cm_name cm_namespace s t)
          → ShowsNone cm_name cm_namespace k step
          → A.Absent k s.queue
          → A.Absent k t.queue
      unfolding process_next_work_item add_func update_func
      step_absent (added s cache none) shows h = h
      step_absent (added s cache (some cur)) shows h = add_func_absent cur s.queue shows h
      step_absent (updated s cache none cur) shows h = h
      step_absent (updated s cache (some old) none) shows h = h
      step_absent (updated s cache (some old) (some cur)) shows h =
          update_func_absent old cur s.queue shows h
      step_absent (deleted s cache) shows h = h
      step_absent (worked s) shows h =
          item_absent s.informer cm_name cm_namespace s.world (W.get_item s.queue)
            (A.get_other k s.queue h)
      step_absent (written s st) shows h = h

      run_absent :
          {s t : State K N order key_of W}
          → Unwanted cm_name cm_namespace k s t
          → A.Absent k s.queue
          → A.Absent k t.queue
      run_absent start h = h
      run_absent (after run step shows) h = step_absent step shows (run_absent run h)

      -- A key that is absent from the queue, and whose service no event shows as a load balancer: in
      -- every state that events, turns of the worker and writes to the cluster lead to, the key is
      -- absent from the queue, and the worker's next turn does not take it, not even if the service
      -- is being deleted and has the finalizer.
      pub Unwanted-Absent :
          {s t : State K N order key_of W}
          → A.Absent k s.queue
          → Unwanted cm_name cm_namespace k s t
          → A.Absent k t.queue × ((W.get_item t.queue).1 ≢ some (key k))
      Unwanted-Absent {s} {t} h run =
          let there = run_absent run h in (there, (A.get_other k t.queue there).0)
