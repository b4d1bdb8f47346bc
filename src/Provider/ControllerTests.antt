-- ===== src/Provider/ControllerTests.antt =====
-- The theorems on the controller at a queue that gives its keys out first in, first out.
use kube_vip_cloud_provider.Prelude.{
  sym, ◌≢◌, String, ◌≡◌, refl, ap, ◌⊎◌, inl, inr, true, false, Option, none, some, List, [], ◌∷◌,
  ◌++◌, foreign, ok,
}
use kube_vip_cloud_provider.Netipx.Model.{model}
use kube_vip_cloud_provider.Kube.{Service}
use kube_vip_cloud_provider.Provider.Cluster.Store.{store}
use kube_vip_cloud_provider.Provider.Controller.{
  on_add, wants_load_balancer, wants_load_balancer, on_add, on_update, needs_cleanup,
}
use kube_vip_cloud_provider.Provider.Controller.Queue.{
  Item, key, WorkQueue, Informer, unavailable, run_worker, process_next_work_item, sync_service,
}
use kube_vip_cloud_provider.Provider.Controller.Queue.Pending.{QueueLaws}
use kube_vip_cloud_provider.Provider.Controller.Queue.Served.{FifoLaws, run_worker-Served}
use kube_vip_cloud_provider.Provider.Controller.System.{
  turn_of, add_func, Serves, worked, here, next, KeyFunc, State, Step, added, worked, Serves, here,
  next,
}
use kube_vip_cloud_provider.Provider.Controller.System.Unwanted.{
  AbsenceLaws, start, after, Unwanted-Absent,
}
use kube_vip_cloud_provider.Provider.Controller.System.{update_func, updated}
use kube_vip_cloud_provider.Provider.Controller.System.Lost.{Unserved-Pending}
use kube_vip_cloud_provider.Provider.Controller.Retyped.{retyped, on_update-retyped}
use kube_vip_cloud_provider.Provider.Controller.Finalizer.{Has}
use kube_vip_cloud_provider.Provider.Fixtures.{provider_code, in_order}
use kube_vip_cloud_provider.Provider.SyncTests.{api, before}

-- The keys in the order in which they are taken; an empty queue counts as shut down.
abbrev take_first : List String → List String × Option Item
take_first [] = ([], none)
take_first (k ∷ ks) = (ks, some (key k))

abbrev fifo : WorkQueue
fifo = record {
  Queue = List String;
  get_item = take_first;
  done = λ item ks. ks;
  forget = λ item ks. ks;
  add_item = λ k ks. ks ++ k ∷ [];
  add_rate_limited = λ k ks. ks ++ k ∷ [];
}

taken_or_kept :
    (k : String) (ks : List String)
    → Has k ks
    → ((take_first ks).1 ≡ some (key k)) ⊎ Has k (take_first ks).0
taken_or_kept k [] h = absurd h
taken_or_kept k (j ∷ ks) (inl e) = inl (rw e refl)
taken_or_kept k (j ∷ ks) (inr h) = inr h

Has-before : (k : String) (more ks : List String) → Has k ks → Has k (ks ++ more)
Has-before k more [] h = absurd h
Has-before k more (j ∷ ks) (inl e) = inl e
Has-before k more (j ∷ ks) (inr h) = inr (Has-before k more ks h)

Has-last : (k : String) (ks : List String) → Has k (ks ++ k ∷ [])
Has-last k [] = inl refl
Has-last k (j ∷ ks) = inr (Has-last k ks)

abbrev fifo_laws : QueueLaws fifo
fifo_laws = record {
  Pending = Has;
  get_keeps = taken_or_kept;
  done_keeps = λ k item ks h. h;
  forget_keeps = λ k item ks h. h;
  add_item_keeps = λ k j ks h. Has-before k (j ∷ []) ks h;
  add_item_pending = λ k ks. Has-last k ks;
  add_keeps = λ k j ks h. Has-before k (j ∷ []) ks h;
  add_pending = λ k ks. Has-last k ks;
}

-- The informer's cache is not there.
abbrev no_cache : Informer
no_cache = record {
  split_key = λ k. ok ("dev", k);
  find_cached = λ namespace name. unavailable (foreign "no cache");
}

abbrev as_keys : List String → List Item
as_keys [] = []
as_keys (k ∷ ks) = key k ∷ as_keys ks

as_keys_snoc : (ks : List String) (k : String) → as_keys (ks ++ k ∷ []) ≡ as_keys ks ++ key k ∷ []
as_keys_snoc [] k = refl
as_keys_snoc (j ∷ ks) k = ap (λ items. key j ∷ items) (as_keys_snoc ks k)

first_waiting :
    (ks : List String) (item : Item) (items : List Item)
    → as_keys ks ≡ item ∷ items
    → ((take_first ks).1 ≡ some item) × (as_keys (take_first ks).0 ≡ items)
first_waiting [] item items h = cc
first_waiting (k ∷ ks) item items h = (cc, cc)

nothing_behind : (items : List Item) → items ≡ items ++ []
nothing_behind [] = refl
nothing_behind (item ∷ items) = ap (λ more. item ∷ more) (nothing_behind items)

abbrev fifo-FifoLaws : FifoLaws fifo
fifo-FifoLaws = record {
  waiting = as_keys;
  get_first = first_waiting;
  done_extends = λ item ks. ([], nothing_behind (as_keys ks));
  forget_extends = λ item ks. ([], nothing_behind (as_keys ks));
  add_extends = λ k ks. (key k ∷ [], as_keys_snoc ks k);
}

run_worker-Served_example :
    let t =
      run_worker store model in_order no_cache "kubevip" "kube-system" fifo 1
        ("web" ∷ "api" ∷ [])
        before in
    (t.goes_on ≡ true)
    × ((fifo.get_item t.queue).1 ≡ some (key "api"))
    × ((process_next_work_item store model in_order no_cache "kubevip" "kube-system" fifo t.queue
          t.world).world
        ≡ (sync_service store model in_order no_cache "kubevip" "kube-system" "api" t.world).world)
run_worker-Served_example =
    run_worker-Served store model in_order no_cache "kubevip" "kube-system" fifo fifo-FifoLaws "api"
      (key "web" ∷ []) [] ("web" ∷ "api" ∷ []) before refl

-- A service of a node port that becomes one of kube-vip's class.
abbrev node_port : Service
node_port = record api { type = "NodePort"; load_balancer_class = none }

not_deleted : needs_cleanup store api ≡ false
unfolding needs_cleanup provider_code
not_deleted = refl

on_update-retyped_example :
    on_update store node_port (retyped node_port "LoadBalancer" (some "kube-vip.io/kube-vip-class"))
    ≡ false
on_update-retyped_example =
    on_update-retyped store node_port "LoadBalancer" (some "kube-vip.io/kube-vip-class") not_deleted

abbrev name_key : KeyFunc
name_key svc = ok svc.name

abbrev idle : State store model in_order name_key fifo
idle = record { informer = no_cache; queue = []; world = before }

-- The service is added, and a turn of the worker fails to reconcile it.
abbrev after_add : State store model in_order name_key fifo
after_add = record idle { queue = add_func name_key fifo store (some api) [] }

abbrev after_turn : State store model in_order name_key fifo
after_turn = record after_add {
  queue = (turn_of store model in_order name_key fifo "kubevip" "kube-system" after_add).queue;
  world = (turn_of store model in_order name_key fifo "kubevip" "kube-system" after_add).world;
}

abbrev add_api : Step store model in_order name_key fifo "kubevip" "kube-system" idle after_add
add_api = added idle no_cache (some api)

api_wanted : on_add store api ≡ true
unfolding on_add wants_load_balancer
api_wanted = refl

failed :
    ¬ Serves store model in_order name_key fifo "kubevip" "kube-system" "api" (worked after_add)
unfolding sync_service
failed (taken, none_) = cc

Unserved-Pending_example : Has "api" after_turn.queue
Unserved-Pending_example =
    Unserved-Pending store model in_order name_key fifo fifo_laws "api" "kubevip" "kube-system"
      add_api (api_wanted, refl) (next here (worked after_add) failed)

taken_other :
    (k : String) (ks : List String)
    → ¬ Has k ks
    → ((take_first ks).1 ≢ some (key k)) × ¬ Has k (take_first ks).0
taken_other k [] h = ((λ e. cc e), h)
taken_other k (j ∷ ks) h = ((λ e. h (inl (let same : j ≡ k = cc in same))), λ there. h (inr there))

Has-snoc : (k j : String) (ks : List String) → k ≢ j → ¬ Has k ks → ¬ Has k (ks ++ j ∷ [])
Has-snoc k j [] other h (inl e) = other (sym e)
Has-snoc k j [] other h (inr none_) = none_
Has-snoc k j (i ∷ ks) other h (inl e) = h (inl e)
Has-snoc k j (i ∷ ks) other h (inr there) = Has-snoc k j ks other (λ m. h (inr m)) there

abbrev fifo-AbsenceLaws : AbsenceLaws fifo
fifo-AbsenceLaws = record {
  Absent = λ k ks. ¬ Has k ks;
  get_other = taken_other;
  done_absent = λ k item ks h. h;
  forget_absent = λ k item ks h. h;
  add_item_absent = λ k j ks other h. Has-snoc k j ks other h;
  add_absent = λ k j ks other h. Has-snoc k j ks other h;
}

-- The service becomes an internal one, and is then deleted with the finalizer on it.
abbrev internal : Service
internal = record api { type = "ClusterIP"; finalizers = store.lb_finalizer ∷ [] }

abbrev leaving : Service
leaving = record internal { deletion_timestamp = some 7 }

abbrev left_alone : State store model in_order name_key fifo
left_alone = record idle {
  queue = update_func name_key fifo store (some internal) (some leaving) [];
}

Unwanted-Absent_example :
    (¬ Has "api" left_alone.queue) × ((fifo.get_item left_alone.queue).1 ≢ some (key "api"))
Unwanted-Absent_example =
    Unwanted-Absent store model in_order name_key fifo fifo-AbsenceLaws "api" "kubevip"
      "kube-system" {s = idle} {t = left_alone} (λ h. h)
      (after start (updated idle no_cache (some internal) (some leaving)) (λ own e. cc e))
