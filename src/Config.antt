-- ===== src/Config.antt =====
-- pkg/config/config.go: the settings that the config map gives to the whole provider.
use kube_vip_cloud_provider.Prelude.{String, Bool, false, Option, none, some, str_eq}
use kube_vip_cloud_provider.Kube.{ConfigMap}
use kube_vip_cloud_provider.Kube.GoMap.{lookup}

abbrev pub search_order_key : String
search_order_key = "search-order"

abbrev pub skip_end_ips_key : String
skip_end_ips_key = "skip-end-ips-in-cidr"

abbrev pub service_interface_prefix : String
service_interface_prefix = "interface"

pub record KubevipLbConfig : Type 0 where
  pub return_ip_in_desc_order : Bool
  pub skip_end_ips_in_cidr : Bool

-- `v, ok := m[key]; ok && v == value`
abbrev has_value : Option String → String → Bool
has_value none value = false
has_value (some v) value = str_eq v value

unfoldable pub get_kubevip_lb_config : ConfigMap → KubevipLbConfig
get_kubevip_lb_config cm = record {
  return_ip_in_desc_order = has_value (lookup search_order_key cm.config_data) "desc";
  skip_end_ips_in_cidr = has_value (lookup skip_end_ips_key cm.config_data) "true";
}
