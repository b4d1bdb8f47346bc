-- ===== src/Provider/Interface.antt =====
-- discoverInterface of pkg/provider/loadBalancer.go.
pub mod Fallback
use kube_vip_cloud_provider.Prelude.{String, none, some, [], ◌∷◌, concat}
use kube_vip_cloud_provider.Kube.{ConfigMap}
use kube_vip_cloud_provider.Kube.GoMap.{lookup}
use kube_vip_cloud_provider.Config.{service_interface_prefix}

unfoldable pub discover_interface : ConfigMap → String → String
discover_interface cm namespace =
    elim (lookup (concat (service_interface_prefix ∷ "-" ∷ namespace ∷ [])) cm.config_data) [
      | some name ↦ name
      | none ↦ elim (lookup (concat (service_interface_prefix ∷ "-global" ∷ [])) cm.config_data) [
        | some name ↦ name
        | none ↦ ""
      ]
    ]
