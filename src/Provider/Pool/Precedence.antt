-- ===== src/Provider/Pool/Precedence.antt =====
-- Which entry of the config map a namespace's pool comes from.
use kube_vip_cloud_provider.Prelude.{
  String, ◌≡◌, refl, sym, ap, ◌∙◌, ◌↔◌, ◌⊎◌, inl, inr, Bool, true, false, ◌||◌, Option, none, some,
  List, [], ◌∷◌, ◌++◌, arith, str_eq, eq_iff, Option-cases, Result, errorf, ok, err,
}
use kube_vip_cloud_provider.Kube.{ConfigMap}
use kube_vip_cloud_provider.Kube.GoMap.{lookup}
use kube_vip_cloud_provider.Provider.Pool.{
  first_pool, no_config, or_false, share_setting, config_key, get_config, parse_bool, Discovered,
  discover_pool,
}

abbrev pub value_or : Option String → Bool → Option (String × Bool) → Option (String × Bool)
value_or none mark rest = rest
value_or (some value) mark rest = some (value, mark)

-- The first of some keys that the config map has: its value and the mark of the key.
abbrev pub first_present : List (String × Bool) → ConfigMap → Option (String × Bool)
first_present [] cm = none
first_present ((key, mark) ∷ keys) cm =
    value_or (lookup key cm.config_data) mark (first_present keys cm)

-- The keys of a setting, that of the namespace before the global one.
abbrev pub setting_keys : String → String → List (String × Bool)
setting_keys namespace name =
    (config_key name namespace, false) ∷ (config_key name "global", true) ∷ []

-- The texts that strconv.ParseBool reads as true.
abbrev pub IsTrueText : String → Type 0
IsTrueText s = (s ≡ "1") ⊎ (s ≡ "t") ⊎ (s ≡ "T") ⊎ (s ≡ "true") ⊎ (s ≡ "TRUE") ⊎ (s ≡ "True")

-- Sharing is on.
abbrev pub Shares : Option (String × Bool) → Type 0
Shares none = ⊥
Shares (some (text, _)) = IsTrueText text

abbrev pub pool_keys : String → List (String × Bool)
pool_keys namespace = setting_keys namespace "cidr" ++ setting_keys namespace "range"

-- What discoverPool returns for the first entry found.
abbrev pub IsDiscovered : ConfigMap → String → Option (String × Bool) → Result Discovered → Type 0
IsDiscovered cm namespace none r = r ≡ err (errorf "no address pools could be found")
IsDiscovered cm namespace (some (pool, global)) r =
    (d : Discovered) × (r ≡ ok d)
    × (d.pool ≡ pool)
    × (d.global ≡ global)
    × ((d.allow_share ≡ true) ↔ Shares (first_present (setting_keys namespace "allow-share") cm))

is_true_text : String → Bool
is_true_text s =
    str_eq s "1"
    || str_eq s "t"
    || str_eq s "T"
    || str_eq s "true"
    || str_eq s "TRUE"
    || str_eq s "True"

is_true_text_iff : (s : String) → (is_true_text s ≡ true) ↔ IsTrueText s
unfolding is_true_text
is_true_text_iff s = (
  λ h. ground (
    arith,
    eq_iff s "1",
    eq_iff s "t",
    eq_iff s "T",
    eq_iff s "true",
    eq_iff s "TRUE",
    eq_iff s "True",
  ),
  λ h. ground (
    arith,
    eq_iff s "1",
    eq_iff s "t",
    eq_iff s "T",
    eq_iff s "true",
    eq_iff s "TRUE",
    eq_iff s "True",
  ),
)

or_false-parse_bool : (s : String) → or_false (parse_bool s) ≡ is_true_text s
unfolding is_true_text
or_false-parse_bool s = ground arith

get_config-first :
    (cm : ConfigMap) (namespace name : String)
    → get_config cm namespace name ≡ elim (first_present (setting_keys namespace name) cm) [
      | some found ↦ ok found
      | none ↦ err (no_config name)
    ]
unfolding get_config
get_config-first cm namespace name =
    elim (Option-cases (lookup (config_key name namespace) cm.config_data)) [
      | inr (v, e) ↦ rw (e, get_config)
      | inl e ↦ elim (Option-cases (lookup (config_key name "global") cm.config_data)) [
        | inr (v, e') ↦ rw (e, e', get_config)
        | inl e' ↦ rw (e, e', get_config)
      ]
    ]

Shares-iff :
    (cm : ConfigMap) (namespace : String) (o : Option (String × Bool))
    → (share_setting (elim o [ some found ↦ ok found | none ↦ err (no_config "allow-share") ])
        ≡ true)
      ↔ Shares o
Shares-iff cm namespace none = (λ h. cc h, λ h. absurd h)
Shares-iff cm namespace (some (text, mark)) = (
  λ h. (is_true_text_iff text).0 (sym (or_false-parse_bool text) ∙ h),
  λ h. or_false-parse_bool text ∙ (is_true_text_iff text).1 h,
)

shares_lem :
    (cm : ConfigMap) (namespace : String)
    → (share_setting (get_config cm namespace "allow-share") ≡ true)
      ↔ Shares (first_present (setting_keys namespace "allow-share") cm)
shares_lem cm namespace =
    rw (get_config-first cm namespace "allow-share")
      (Shares-iff cm namespace (first_present (setting_keys namespace "allow-share") cm))

-- The first entry of either kind.
abbrev or_else : Option (String × Bool) → Option (String × Bool) → Option (String × Bool)
or_else none o = o
or_else (some found) o = some found

or_else-value_or :
    (mark : Bool) (o p : Option (String × Bool)) (l : Option String)
    → value_or l mark (or_else o p) ≡ or_else (value_or l mark o) p
or_else-value_or mark o p none = refl
or_else-value_or mark o p (some value) = refl

first_present-append :
    (cm : ConfigMap) (xs ys : List (String × Bool))
    → first_present (xs ++ ys) cm ≡ or_else (first_present xs cm) (first_present ys cm)
first_present-append cm [] ys = refl
first_present-append cm ((key, mark) ∷ xs) ys =
    ap (value_or (lookup key cm.config_data) mark) (first_present-append cm xs ys)
    ∙ (or_else-value_or mark (first_present xs cm) (first_present ys cm)
        (lookup key cm.config_data))

first_present-pool_keys :
    (cm : ConfigMap) (namespace : String)
    → first_present (pool_keys namespace) cm
      ≡ or_else
          (first_present (setting_keys namespace "cidr") cm)
          (first_present (setting_keys namespace "range") cm)
first_present-pool_keys cm namespace =
    first_present-append cm (setting_keys namespace "cidr") (setting_keys namespace "range")

abbrev of_found : String → Option (String × Bool) → Result (String × Bool)
of_found name none = err (no_config name)
of_found name (some found) = ok found

get_config-of_found :
    (cm : ConfigMap) (namespace name : String)
    → get_config cm namespace name ≡ of_found name (first_present (setting_keys namespace name) cm)
get_config-of_found cm namespace name = get_config-first cm namespace name ∙ same _
  where
    same :
        (o : Option (String × Bool))
        → elim o [ some found ↦ ok found | none ↦ err (no_config name) ] ≡ of_found name o
    same none = refl
    same (some found) = refl

first_pool-IsDiscovered :
    (cm : ConfigMap) (namespace : String) (o p : Option (String × Bool))
    → IsDiscovered cm namespace (or_else o p) (
        first_pool
          (of_found "cidr" o)
          (of_found "range" p)
          (share_setting (get_config cm namespace "allow-share")))
first_pool-IsDiscovered cm namespace (some (v, g)) p =
    (_, refl, refl, refl, shares_lem cm namespace)
first_pool-IsDiscovered cm namespace none (some (v, g)) =
    (_, refl, refl, refl, shares_lem cm namespace)
first_pool-IsDiscovered cm namespace none none = refl

-- discoverPool takes the first of cidr-<namespace>, cidr-global, range-<namespace> and range-global
-- that the config map has, and the last two only if it has no CIDR at all; it fails if it has none
-- of them. The pool is global if the key was. Sharing is on exactly if the first of
-- allow-share-<namespace> and allow-share-global that is there is a text for true.
pub discover_pool-IsDiscovered :
    (cm : ConfigMap) (namespace : String)
    → IsDiscovered cm namespace
        (first_present (pool_keys namespace) cm)
        (discover_pool cm namespace)
unfolding discover_pool
discover_pool-IsDiscovered cm namespace =
    rw
      (
        first_present-pool_keys cm namespace,
        discover_pool,
        get_config-of_found cm namespace "cidr",
        get_config-of_found cm namespace "range",
      )
      (first_pool-IsDiscovered cm namespace (first_present (setting_keys namespace "cidr") cm)
        (first_present (setting_keys namespace "range") cm))
