-- ===== src/Provider/Fixtures.antt =====
-- Services and config maps for the tests of the provider, and an order of Go's maps.
use text.Mathlib.TextPositions.{eq_refl}
use kube_vip_cloud_provider.Prelude.{
  ℕ, String, ◌≡◌, refl, inl, inr, false, Option, none, some, List, [], ◌∷◌, str_eq, Bool-cases,
  contains_byte, join, All,
}
use kube_vip_cloud_provider.Netip.{z4, addr_eq}
use kube_vip_cloud_provider.Netipx.Model.{Span, model}
use kube_vip_cloud_provider.Kube.{Service, ServicePort, ConfigMap}
use kube_vip_cloud_provider.Kube.GoMap.{
  StringMap, nil, entries, lookup, find, assign, delete, deep_equal,
}
use kube_vip_cloud_provider.Config.{get_kubevip_lb_config}
use kube_vip_cloud_provider.Ipam.Tests.{ipam_code}
use kube_vip_cloud_provider.Provider.Pool.{discover_pool, get_config, get_config_with_namespace}
use kube_vip_cloud_provider.Provider.Interface.{discover_interface}
use kube_vip_cloud_provider.Provider.Sharing.{
  parse_addrs, parse_addr_list, PortMap, has_port, insert_port, insert_ports, reserve_ip,
  note_ports, add_addrs, add_annotated, add_service, add_services, map_implemented_services,
  is_disjoint, discover_shared_vips, loadbalancer_ips_annotation,
}
use kube_vip_cloud_provider.Provider.Sharing.Ports.{find_ports}
use kube_vip_cloud_provider.Provider.Sharing.Conflict.{IsListing}
use kube_vip_cloud_provider.Provider.Vips.{
  Request, discover_address, single_pool, discover_vips_single_stack, append_vip, vip_from_pool,
  discover_from_pool, dual_result, after_secondary, after_primary, discover_vips_dual_stack,
  discover_vips, render_errors,
}
use kube_vip_cloud_provider.Provider.Cluster.Store.{
  find_service, replace_service, find_config_map, select_services, contains_text, put_service,
}
use kube_vip_cloud_provider.Provider.Sync.{
  annotate_legacy, label_implemented, assign_vips, attempt, update_spec, check_legacy,
  keep_annotated, get_or_create_config_map, sync_load_balancer,
}

-- All the code of the provider that a run executes, for the tests to open at once.
unfoldable pub provider_code : Unit {0}
unfolding ipam_code addr_eq lookup find assign delete deep_equal get_kubevip_lb_config discover_pool
    get_config get_config_with_namespace discover_interface parse_addrs parse_addr_list has_port
    insert_port insert_ports reserve_ip note_ports add_addrs add_annotated add_service add_services
    map_implemented_services is_disjoint discover_shared_vips discover_address single_pool
    discover_vips_single_stack append_vip vip_from_pool discover_from_pool dual_result
    after_secondary after_primary discover_vips_dual_stack discover_vips render_errors find_service
    replace_service find_config_map select_services contains_text put_service annotate_legacy
    label_implemented assign_vips attempt update_spec check_legacy keep_annotated
    get_or_create_config_map sync_load_balancer contains_byte join find_ports
provider_code = tt

abbrev pub port_of : ℕ → ServicePort
port_of n = record {
  name = "http";
  protocol = "TCP";
  app_protocol = none;
  port = n;
  target_port = record { type = 0; int_val = n; str_val = "" };
  node_port = 0;
}

abbrev pub service_of : String → List ServicePort → StringMap → StringMap → Service
service_of name ports labels annotations = record {
  name = name;
  namespace = "dev";
  uid = name;
  labels = labels;
  annotations = annotations;
  finalizers = [];
  deletion_timestamp = none;
  type = "LoadBalancer";
  load_balancer_class = some "kube-vip.io/kube-vip-class";
  load_balancer_ip = "";
  load_balancer_source_ranges = none;
  ports = ports;
  session_affinity = "None";
  session_affinity_config = none;
  external_ips = [];
  external_traffic_policy = "Cluster";
  health_check_node_port = 0;
  ip_families = [];
  ip_family_policy = none;
  status = [];
}

-- A service that has 10.0.0.8 for its port 80, and a new one for the ports it is given.
abbrev pub web : Service
web =
    service_of "web" (port_of 80 ∷ []) (entries (("implementation", "kube-vip") ∷ []))
      (entries ((loadbalancer_ips_annotation, "10.0.0.8") ∷ []))

abbrev pub new_service : List ServicePort → Service
new_service ports = service_of "api" ports nil nil

abbrev pub kubevip : List (String × String) → ConfigMap
kubevip settings = record {
  name = "kubevip";
  namespace = "kube-system";
  config_data = entries settings;
}

-- 10.0.0.8
abbrev pub web_address : List Span
web_address =
    record {
      first = record { value = 167772168; zone = z4 };
      last = record { value = 167772168; zone = z4 };
    }
    ∷ []

abbrev pub request_beside : List Span → String → Request model
request_beside in_use preferred = record {
  namespace = "dev";
  preferred_ipv4 = preferred;
  in_use = in_use;
  config = some (record { return_ip_in_desc_order = false; skip_end_ips_in_cidr = false });
}

abbrev ports_or_none : Option (List ℕ) → List ℕ
ports_or_none none = []
ports_or_none (some ports) = ports

-- The entries of a port map as they are looked up.
abbrev looked_up : PortMap → PortMap → PortMap
looked_up m [] = []
looked_up m (e ∷ es) = (e.0, ports_or_none (find_ports e.0 m)) ∷ looked_up m es

abbrev pub in_order : PortMap → PortMap
in_order m = looked_up m m

abbrev IsKey : PortMap → String × List ℕ → Type 0
IsKey m e = (ports : List ℕ) × (find_ports e.0 m ≡ some ports)

more_keys :
    (key : String) (ports : List ℕ) (m es : PortMap)
    → All (IsKey m) es
    → All (IsKey ((key, ports) ∷ m)) es
unfolding find_ports
more_keys key ports m [] h = tt
more_keys key ports m (e ∷ es) h = (
  elim (Bool-cases (str_eq key e.0)) [
    | inl here ↦ (ports, rw (find_ports, here) refl)
    | inr there ↦ (h.0.0, rw (find_ports, there) h.0.1)
  ],
  more_keys key ports m es h.1,
)

All-keys : (m : PortMap) → All (IsKey m) m
unfolding find_ports
All-keys [] = tt
All-keys ((key, ports) ∷ m) =
    ((ports, rw (find_ports, eq_refl key) refl), more_keys key ports m m (All-keys m))

looked_up-IsListing : (m es : PortMap) → All (IsKey m) es → IsListing m (looked_up m es)
looked_up-IsListing m [] h = tt
looked_up-IsListing m (e ∷ es) h = (rw h.0.1 refl, looked_up-IsListing m es h.1)

pub in_order-IsListing : (m : PortMap) → IsListing m (in_order m)
in_order-IsListing m = looked_up-IsListing m m (All-keys m)
