-- ===== src/Provider/Sync/Fresh.antt =====
-- What the reconciliation writes to a service that had no address.
use kube_vip_cloud_provider.Provider.Vips.{Managers}
use kube_vip_cloud_provider.Prelude.{
  if◌then◌else◌, ℕ, ◌≤◌, String, ◌≡◌, refl, sym, ◌∙◌, true, false, Option, none, some, List,
  is_empty, join, length, All, GoError, Result, err, ok,
}
use kube_vip_cloud_provider.Netipx.{Netipx, SetLaws, AddLaws}
use kube_vip_cloud_provider.Kube.{Service, ConfigMap}
use kube_vip_cloud_provider.Provider.Cluster.{RetryLaws, Cluster, after_tries}
use kube_vip_cloud_provider.Provider.Pool.{discover_pool, Discovered}
use kube_vip_cloud_provider.Provider.Sharing.{PortMap, map_implemented_services}
use kube_vip_cloud_provider.Provider.Sharing.Conflict.{IsListing}
use kube_vip_cloud_provider.Provider.Vips.{Managers}
use kube_vip_cloud_provider.Provider.Vips.Safe.{most_vips, VipsIfAny, discover_vips-Vips}
use kube_vip_cloud_provider.Provider.Sync.{
  get_or_create_config_map, implementation_label, is_annotated, attempt, update_spec, check_legacy,
  after_vips, after_map, after_list, after_pool, after_config, update_failure, assign_vips, written,
  request, World, Reply, sync_load_balancer, interface_for, list_namespace,
}
use kube_vip_cloud_provider.Provider.Sync.FreshVips.{IsFresh, All-map, vip-IsFresh}

module _ (K : Cluster) where
  -- What the reconciliation looks up from the state `first`, in which it leaves `st`.
  pub record IsListed (svc : Service) (cm_name cm_namespace : String) (first : K.State)
      (d : Discovered) (services : List Service) (st : K.State) : Type 0 where
    pub cm : ConfigMap
    pub at_config : K.State
    pub configured : get_or_create_config_map K cm_name cm_namespace first ≡ (at_config, ok cm)
    pub discovered : discover_pool cm svc.namespace ≡ ok d
    pub listed :
        K.list_services (if d.global then "" else svc.namespace) implementation_label at_config
        ≡ (st, ok services)

  -- The last thing done was an attempt that wrote the addresses, each of which is fresh beside the
  -- services that were listed before the attempts, for the pool that was looked up.
  pub record IsAssigned (svc : Service) (cm_name cm_namespace : String) (first last : K.State)
      : Type 0 where
    pub d : Discovered
    pub services : List Service
    pub before_write : K.State
    pub was_listed : IsListed svc cm_name cm_namespace first d services before_write
    pub vips : List String
    pub all_fresh : All (IsFresh svc d.allow_share services) vips
    pub at_most : length vips ≤ most_vips svc.ip_family_policy
    pub was_written :
        (interface : String) × (n : ℕ) × (after_tries K
            (attempt K svc (assign_vips (join "," vips) interface))
            n
            before_write
          ≡ (last, none))

module _ (K : Cluster) (N : Netipx) (order : PortMap → PortMap) where
  module _ (L : SetLaws N) (B : AddLaws N) (listing : (m : PortMap) → IsListing m (order m)) where
    -- A reply without an error means that addresses were assigned.
    abbrev Assigns : Service → String → String → K.State → World K N order × Reply → Type 0
    Assigns svc cm_name cm_namespace first (w, reply) =
        reply.error ≡ none → IsAssigned K svc cm_name cm_namespace first w.cluster

    module _ (R : RetryLaws K) (svc : Service) (cm_name cm_namespace : String)
        (first : K.State) where
      last_attempt :
          (ms : Managers N) (r : K.State × Option GoError)
          → (written K N order svc ms (r.0, update_failure svc.name r.1)).1.error ≡ none
          → r ≡ ((written K N order svc ms (r.0, update_failure svc.name r.1)).0.cluster, none)
      last_attempt ms (st, none) h = refl
      last_attempt ms (st, some e) h = cc

      written-Assigns :
          (d : Discovered) (services : List Service) (ms : Managers N) (vips : List String)
          (interface : String) (st : K.State)
          → IsListed K svc cm_name cm_namespace first d services st
          → All (IsFresh svc d.allow_share services) vips
          → length vips ≤ most_vips svc.ip_family_policy
          → Assigns svc cm_name cm_namespace first (
              written K N order svc ms
                (update_spec K svc (assign_vips (join "," vips) interface) st))
      unfolding update_spec
      written-Assigns d services ms vips interface st listed fresh count h =
          let edit = assign_vips (join "," vips) interface in
          let (n, e) = R.retry_tries (attempt K svc edit) st in
          record {
            d = d;
            services = services;
            before_write = st;
            was_listed = listed;
            vips = vips;
            all_fresh = fresh;
            at_most = count;
            was_written = (
              interface,
              n,
              sym e ∙ last_attempt ms (K.retry_on_conflict (attempt K svc edit) st) h,
            );
          }

      module _ (cm : ConfigMap) (d : Discovered) (services : List Service) where
        module _ (in_use : N.IPSet) (m : PortMap)
            (e : map_implemented_services N services d.allow_share ≡ ok (in_use, m)) where
          after_vips-Assigns :
              (st : K.State) (v : Managers N × Result String)
              → IsListed K svc cm_name cm_namespace first d services st
              → VipsIfAny N L
                  (request K N order svc cm d in_use m)
                  (most_vips svc.ip_family_policy)
                  v.1
              → Assigns svc cm_name cm_namespace first (after_vips K N order svc cm st v)
          after_vips-Assigns st (ms, err x) listed found h = cc
          after_vips-Assigns st (ms, ok text) listed (vips, same, all, count) h =
              let fresh : All (IsFresh svc d.allow_share services) vips =
                All-map _ _ vips (vip-IsFresh K N order L B listing svc cm d services in_use m e)
                  all in
              let g : Assigns svc cm_name cm_namespace first
                  (after_vips K N order svc cm st (ms, ok text)) =
                rw same (
                  written-Assigns d services ms vips
                    (interface_for K N order cm svc (join "," vips)) st listed fresh count) in
              g h

        after_map-Assigns :
            (w : World K N order) (r : Result (N.IPSet × PortMap))
            → IsListed K svc cm_name cm_namespace first d services w.cluster
            → map_implemented_services N services d.allow_share ≡ r
            → Assigns svc cm_name cm_namespace first (after_map K N order svc cm d w r)
        after_map-Assigns w (err x) listed e h = cc
        after_map-Assigns w (ok (in_use, m)) listed e h =
            after_vips-Assigns in_use m e w.cluster _ listed
              (discover_vips-Vips N L (request K N order svc cm d in_use m) d.pool
                svc.ip_family_policy svc.ip_families w.managers)
              h

      module _ (cm : ConfigMap) (at_config : K.State)
          (configured : get_or_create_config_map K cm_name cm_namespace first
            ≡ (at_config, ok cm)) where
        after_list-Assigns :
            (d : Discovered) (ms : Managers N) (p : K.State × Result (List Service))
            → discover_pool cm svc.namespace ≡ ok d
            → K.list_services (list_namespace K N order svc d) implementation_label at_config ≡ p
            → Assigns svc cm_name cm_namespace first (after_list K N order svc cm d ms p)
        after_list-Assigns d ms (st, err x) discovered listed h = cc
        after_list-Assigns d ms (st, ok services) discovered listed h =
            after_map-Assigns cm d services (record { cluster = st; managers = ms }) _
              (record {
                cm = cm;
                at_config = at_config;
                configured = configured;
                discovered = discovered;
                listed = listed;
              })
              refl h

        after_pool-Assigns :
            (ms : Managers N) (r : Result Discovered)
            → discover_pool cm svc.namespace ≡ r
            → Assigns svc cm_name cm_namespace first
                (after_pool K N order svc cm (record { cluster = at_config; managers = ms }) r)
        after_pool-Assigns ms (err x) discovered h = cc
        after_pool-Assigns ms (ok d) discovered h = after_list-Assigns d ms _ discovered refl h

      after_config-Assigns :
          (ms : Managers N) (p : K.State × Result ConfigMap)
          → get_or_create_config_map K cm_name cm_namespace first ≡ p
          → Assigns svc cm_name cm_namespace first (after_config K N order svc ms p)
      after_config-Assigns ms (st, err x) configured h = cc
      after_config-Assigns ms (st, ok cm) configured h =
          after_pool-Assigns cm st configured ms (discover_pool cm svc.namespace) refl h

    module _ (R : RetryLaws K) (svc : Service) where
      -- A service without an address, neither in its specification nor in its annotation: if its
      -- reconciliation returns no error, then the last write to the cluster put a list of addresses on
      -- the service, one at most for a service with no policy or of a single stack, two at most for
      -- any other. Each of them is DHCP's 0.0.0.0; or, if the namespace shares addresses, an IPv4
      -- address that some of the implemented services that were listed before use, all that do with
      -- ports and none with one of the new service's; or an address of one of the families that no listed service occupies and that is
      -- no IPv4 network or broadcast address.
      pub sync_load_balancer-IsAssigned :
          (cm_name cm_namespace : String) (w : World K N order)
          → is_empty svc.load_balancer_ip ≡ true
          → is_annotated svc ≡ false
          → (sync_load_balancer K N order svc cm_name cm_namespace w).1.error ≡ none
          → IsAssigned K svc cm_name cm_namespace w.cluster
              (sync_load_balancer K N order svc cm_name cm_namespace w).0.cluster
      unfolding sync_load_balancer check_legacy
      sync_load_balancer-IsAssigned cm_name cm_namespace w new plain =
          rw (sync_load_balancer, check_legacy, new, plain)
            (after_config-Assigns R svc cm_name cm_namespace w.cluster w.managers _ refl)
