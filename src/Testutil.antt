-- ===== src/Testutil.antt =====
-- pkg/testutil/service.go: the services that the tests make. A Go int stands for its 64 bits, and an
-- int32 for its 32 bits.
pub mod Made
pub mod Tests
use kube_vip_cloud_provider.Prelude.{
  ℕ, zero, suc, ◌+◌, ◌-◌, ◌*◌, ◌/◌, ◌%◌, ◌^◌, ◌≤◌, ◌<◌, String, ◌≡◌, refl, sym, ap, ◌∙◌, subst, ◌≢◌,
  ◌↔◌, ◌⊎◌, inl, inr, Bool, true, false, not, ◌&&◌, ◌||◌, Option, none, some, List, [], ◌∷◌, ◌++◌,
  map, arith, str_eq, eq_iff, ltb, leb, ◌==◌, if◌then◌else◌, ==_iff, Bool-cases, Option-cases,
  power_positive, split, contains_byte, is_empty, concat, join, append_text, first_code, length,
  All, Any, GoError, Result, ◌>>=◌, Result-cases, >>=-eq-ok, Ends, err-Ends, >>=-Ends, out_of_ips,
  errorf, foreign, diverged, err, ok, contains_byte-append, split_front, char_front, split-join,
  split_two, is_empty-append,
}
use kube_vip_cloud_provider.Kube.{
  Service, ServicePort, IntOrString, IpFamily, ipv4_protocol, ipv6_protocol, require_dual_stack,
}
use kube_vip_cloud_provider.Kube.GoMap.{nil}

-- A change of the service in place, which is `none` if it panics.
abbrev pub ServiceTweak : Type 0
ServiceTweak = Service → Option Service

abbrev to_int32 : ℕ → ℕ
to_int32 n = n % 2 ^ 32

abbrev is_positive : ℕ → Bool
is_positive n = ltb 0 n && ltb n (2 ^ 63)

abbrev pub no_target : IntOrString
no_target = record { type = 0; int_val = 0; str_val = "" }

unfoldable pub make_service_port : String → ℕ → ℕ → List ServicePort
make_service_port protocol source_port target_port =
    record {
      name = "";
      protocol = protocol;
      app_protocol = none;
      port = to_int32 source_port;
      target_port =
          if is_positive target_port
          then record { type = 0; int_val = to_int32 target_port; str_val = "" }
          else no_target;
      node_port = 0;
    }
    ∷ []

abbrev pub apply_tweaks : List ServiceTweak → Option Service → Option Service
apply_tweaks [] s = s
apply_tweaks (tw ∷ tweaks) none = none
apply_tweaks (tw ∷ tweaks) (some s) = apply_tweaks tweaks (tw s)

unfoldable pub new_service : String → List ServiceTweak → Option Service
new_service name tweaks = apply_tweaks tweaks (
    some (record {
      name = name;
      namespace = "default";
      uid = "";
      labels = nil;
      annotations = nil;
      finalizers = [];
      deletion_timestamp = none;
      type = "LoadBalancer";
      load_balancer_class = none;
      load_balancer_ip = "";
      load_balancer_source_ranges = none;
      ports = make_service_port "TCP" 80 0;
      session_affinity = "";
      session_affinity_config = none;
      external_ips = [];
      external_traffic_policy = "";
      health_check_node_port = 0;
      ip_families = [];
      ip_family_policy = none;
      status = [];
    }))

abbrev pub tweak_namespace : String → ServiceTweak
tweak_namespace ns s = some (record s { namespace = ns })

abbrev pub tweak_add_etp : String → ServiceTweak
tweak_add_etp etp_type s = some (record s { external_traffic_policy = etp_type })

abbrev pub tweak_add_lb_ingress : String → ServiceTweak
tweak_add_lb_ingress ip s = some (record s { status = ip ∷ [] })

abbrev pub tweak_add_ports : String → ℕ → ℕ → ServiceTweak
tweak_add_ports protocol source_port target_port s =
    some (record s { ports = make_service_port protocol source_port target_port })

abbrev pub tweak_add_lb_class : Option String → ServiceTweak
tweak_add_lb_class class s = some (record s { load_balancer_class = class })

abbrev pub tweak_add_finalizers : List String → ServiceTweak
tweak_add_finalizers finalizers s = some (record s { finalizers = finalizers })

abbrev pub tweak_add_deletion_timestamp : ℕ → ServiceTweak
tweak_add_deletion_timestamp time s = some (record s { deletion_timestamp = some time })

-- The index 0 is out of range if there are no ports.
abbrev with_app_protocol : String → List ServicePort → Option (List ServicePort)
with_app_protocol protocol [] = none
with_app_protocol protocol (p ∷ ports) = some (record p { app_protocol = some protocol } ∷ ports)

abbrev with_ports : Service → Option (List ServicePort) → Option Service
with_ports s none = none
with_ports s (some ports) = some (record s { ports = ports })

abbrev pub tweak_add_app_protocol : String → ServiceTweak
tweak_add_app_protocol protocol s = with_ports s (with_app_protocol protocol s.ports)

abbrev pub tweak_set_ip_families : List IpFamily → ServiceTweak
tweak_set_ip_families families s = some (record s { ip_families = families })

abbrev pub tweak_set_loadbalancer_ip : String → ServiceTweak
tweak_set_loadbalancer_ip ip s = some (record s { load_balancer_ip = ip })

abbrev pub tweak_dual_stack : ServiceTweak
tweak_dual_stack s = some (record s {
  ip_family_policy = some require_dual_stack;
  ip_families = ipv4_protocol ∷ ipv6_protocol ∷ [];
})
