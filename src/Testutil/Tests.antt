-- ===== src/Testutil/Tests.antt =====
-- Services that the tests of pkg/provider/loadbalancerclass_test.go make.
use kube_vip_cloud_provider.Prelude.{
  ℕ, ◌+◌, ◌-◌, ◌^◌, ◌≡◌, refl, ◌↔◌, true, some, List, [], ◌∷◌, map,
}
use kube_vip_cloud_provider.Kube.{Service}
use kube_vip_cloud_provider.Provider.Controller.{loadbalancer_class, wants_load_balancer}
use kube_vip_cloud_provider.Testutil.{make_service_port, new_service}
use kube_vip_cloud_provider.Testutil.Made.{
  Tweak, of_ports, of_class, of_dual_stack, of_app_protocol, of_namespace, tweak, IsMade,
  new_service-IsMade,
}

abbrev udp_tweaks : List Tweak
udp_tweaks =
    of_dual_stack
    ∷ of_ports "UDP" 123 123
    ∷ of_class (some loadbalancer_class)
    ∷ of_app_protocol "ntp"
    ∷ of_namespace "test"
    ∷ []

-- A port that does not fit an int32 is cut to its low bits, a target port that is negative is not
-- written.
ports_cut :
    map {B = ℕ × ℕ}
      (λ p. (p.port, p.target_port.int_val))
      (make_service_port "TCP" (2 ^ 32 + 80) (2 ^ 64 - 1))
    ≡ (80, 0) ∷ []
unfolding make_service_port
ports_cut = refl

new_service-IsMade_example :
    (s : Service) × (new_service "udp" (map tweak udp_tweaks) ≡ some s)
    × IsMade "udp" "test" (some loadbalancer_class) s
    × ((wants_load_balancer s ≡ true) ↔ (some loadbalancer_class ≡ some loadbalancer_class))
new_service-IsMade_example = new_service-IsMade "udp" udp_tweaks
