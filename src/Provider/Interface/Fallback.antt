-- ===== src/Provider/Interface/Fallback.antt =====
-- Which entry of the config map the interface of a namespace comes from.
use kube_vip_cloud_provider.Prelude.{
  String, ◌≡◌, refl, inl, inr, Bool, Option, none, some, Option-cases,
}
use kube_vip_cloud_provider.Kube.{ConfigMap}
use kube_vip_cloud_provider.Kube.GoMap.{lookup}
use kube_vip_cloud_provider.Config.{service_interface_prefix}
use kube_vip_cloud_provider.Provider.Pool.{config_key}
use kube_vip_cloud_provider.Provider.Pool.Precedence.{first_present, setting_keys}
use kube_vip_cloud_provider.Provider.Interface.{discover_interface}

abbrev pub value_if_any : Option (String × Bool) → String
value_if_any none = ""
value_if_any (some (value, _)) = value

-- The interface of a namespace is the value of the first of interface-<namespace> and
-- interface-global that the config map has, and the empty text if it has neither.
pub discover_interface-first_present :
    (cm : ConfigMap) (namespace : String)
    → discover_interface cm namespace
      ≡ value_if_any (first_present (setting_keys namespace service_interface_prefix) cm)
unfolding discover_interface
discover_interface-first_present cm namespace =
    elim (Option-cases (lookup (config_key service_interface_prefix namespace) cm.config_data)) [
      | inr (own, e) ↦ rw (discover_interface, e) refl
      | inl e ↦
          elim (Option-cases
            (lookup (config_key service_interface_prefix "global") cm.config_data)) [
              | inr (common, g) ↦ rw (discover_interface, e, g) refl
              | inl g ↦ rw (discover_interface, e, g) refl
            ]
    ]
