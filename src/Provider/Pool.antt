-- ===== src/Provider/Pool.antt =====
-- The lookup of a namespace's address pool in the config map: getConfigWithNamespace, getConfig and
-- discoverPool of pkg/provider/loadBalancer.go.
pub mod Precedence
use kube_vip_cloud_provider.Prelude.{
  String, Bool, true, false, ◌||◌, Option, none, some, [], ◌∷◌, str_eq, if◌then◌else◌, concat,
  append_text, GoError, Result, errorf, ok, err,
}
use kube_vip_cloud_provider.Kube.{ConfigMap}
use kube_vip_cloud_provider.Kube.GoMap.{lookup}

-- fmt.Sprintf("%s-%s", name, namespace)
abbrev pub config_key : String → String → String
config_key name namespace = concat (name ∷ "-" ∷ namespace ∷ [])

abbrev pub no_config : String → GoError
no_config name = errorf (append_text "no config for " name)

unfoldable pub get_config_with_namespace : ConfigMap → String → String → Result String
get_config_with_namespace cm namespace name =
    elim (lookup (config_key name namespace) cm.config_data) [
      | some value ↦ ok value
      | none ↦ err (no_config name)
    ]

-- The value, and whether it is the global one.
unfoldable pub get_config : ConfigMap → String → String → Result (String × Bool)
unfolding get_config_with_namespace
get_config cm namespace name = elim (get_config_with_namespace cm namespace name) [
  | ok value ↦ ok (value, false)
  | err _ ↦ elim (get_config_with_namespace cm "global" name) [
    | ok value ↦ ok (value, true)
    | err _ ↦ err (no_config name)
  ]
]

-- strconv.ParseBool, whose error the caller drops with the value false.
abbrev pub parse_bool : String → Option Bool
parse_bool s =
    if str_eq s "1"
      || str_eq s "t"
      || str_eq s "T"
      || str_eq s "true"
      || str_eq s "TRUE"
      || str_eq s "True"
    then some true
    else if str_eq s "0"
        || str_eq s "f"
        || str_eq s "F"
        || str_eq s "false"
        || str_eq s "FALSE"
        || str_eq s "False"
    then some false
    else none

abbrev pub or_false : Option Bool → Bool
or_false none = false
or_false (some b) = b

abbrev pub share_setting : Result (String × Bool) → Bool
share_setting (ok (text, _)) = or_false (parse_bool text)
share_setting (err e) = false

-- The pool, whether it is the global one, and whether addresses may be shared.
pub record Discovered : Type 0 where
  pub pool : String
  pub global : Bool
  pub allow_share : Bool

-- The CIDR if there is one, else the range.
abbrev pub first_pool : Result (String × Bool) → Result (String × Bool) → Bool → Result Discovered
first_pool (ok (cidr, global)) ip_range allow_share =
    ok (record { pool = cidr; global = global; allow_share = allow_share })
first_pool (err _) (ok (ip_range, global)) allow_share =
    ok (record { pool = ip_range; global = global; allow_share = allow_share })
first_pool (err _) (err _) allow_share = err (errorf "no address pools could be found")

unfoldable pub discover_pool : ConfigMap → String → Result Discovered
discover_pool cm namespace =
    first_pool (get_config cm namespace "cidr") (get_config cm namespace "range")
      (share_setting (get_config cm namespace "allow-share"))
