-- ===== src/Command/Controllers.antt =====
-- Which controllers reconcile the services: what main.go hands to the cloud controller manager, and
-- what pkg/provider/provider.go starts.
use kube_vip_cloud_provider.Prelude.{
  String, ◌≡◌, refl, sym, ap, ◌∙◌, subst, inl, inr, Bool, true, false, Option, none, some, [], ◌∷◌,
  Bool-cases, is_empty, Result, err, ok,
}
use kube_vip_cloud_provider.Provider.Registration.{
  enable_loadbalancer_class_env_key, ClientGo, Environment, Outcome, returns, fails, panics,
  class_enabled, new_kube_vip_cloud_provider, KubeVipCloudProvider, initialize, class_controller,
  informers, cache_sync, connect, new_load_balancer, with_class, provider_of, map_outcome,
  or_default,
}
use kube_vip_cloud_provider.Command.{
  Initializers, controller_initializers, chosen_initializers, Manager, Process, goes_on, exits,
  fatal, and_then, Command, prepared_command, controller_initializers, initializers_for, visit_all,
  with_options, with_flags, chosen_initializers, command_of, Initializers,
}

-- A process that went on after a step has gone through the step.
pub and_then-eq-goes_on :
    {A B : Type 0} (next : A → Process B) (step : Process A) {b : B}
    → and_then next step ≡ goes_on b
    → (a : A) × (step ≡ goes_on a) × (next a ≡ goes_on b)
and_then-eq-goes_on next (goes_on a) h = (a, refl, h)
and_then-eq-goes_on next (exits text) h = cc
and_then-eq-goes_on next (fatal text) h = cc

map_outcome-eq-returns :
    {A B : Type 0} (f : A → B) (o : Outcome A) {b : B}
    → map_outcome f o ≡ returns b
    → (a : A) × (o ≡ returns a) × (f a ≡ b)
map_outcome-eq-returns f (returns a) h = (a, refl, cc)
map_outcome-eq-returns f (fails e) h = cc
map_outcome-eq-returns f (panics text) h = cc

abbrev after_command :
    {M : Manager} → Initializers M → Process (Command M) → Process (Initializers M)
after_command other (goes_on c) = goes_on c.initializers
after_command other _ = goes_on other

-- The command that is executed has the controllers that the check of the environment left.
with_options-initializers :
    (M : Manager) (env : Environment) (opts : Result M.Options) {command : Command M}
    → with_options M env opts ≡ goes_on command
    → initializers_for M env ≡ goes_on command.initializers
with_options-initializers M env (err e) h = cc
with_options-initializers M env (ok opts) {command} h =
    let (chosen, checked, set) =
      and_then-eq-goes_on (with_flags M opts) (initializers_for M env) h in
    let (flags, _, made) =
      and_then-eq-goes_on (λ flags. goes_on (command_of M opts chosen flags))
        (visit_all M (M.bool_var "OutSideCluster" false (M.command_flags opts))) set in
    checked ∙ ap (after_command chosen) made

command-initializers :
    (M : Manager) (env : Environment) {command : Command M}
    → prepared_command M env ≡ goes_on command
    → initializers_for M env ≡ goes_on command.initializers
unfolding prepared_command
command-initializers M env h = with_options-initializers M env M.new_options h

-- The provider that is returned is made from the environment and a client.
with_class-parts :
    (G : ClientGo) (env : Environment) (outside_cluster : Bool) (class : Option Bool)
    {p : KubeVipCloudProvider G}
    → with_class G env outside_cluster class ≡ returns p
    → (enabled : Bool) × (client : G.Client) × (class ≡ some enabled)
      × (connect G env outside_cluster ≡ returns client)
      × (provider_of G
            (or_default (env "KUBEVIP_NAMESPACE") "kube-system")
            (or_default (env "KUBEVIP_CONFIG_MAP") "kubevip")
            enabled
            client
          ≡ p)
with_class-parts G env outside_cluster none h = cc
with_class-parts G env outside_cluster (some enabled) h =
    let (client, connected, made) =
      map_outcome-eq-returns
        (provider_of G (or_default (env "KUBEVIP_NAMESPACE") "kube-system")
          (or_default (env "KUBEVIP_CONFIG_MAP") "kubevip") enabled)
        (connect G env outside_cluster) h in
    (enabled, client, refl, connected, made)

-- What the class of load balancers, on or off, makes of the controllers.
abbrev pub OneController :
    {M : Manager} {G : ClientGo} → Command M → KubeVipCloudProvider G → Bool → Type 0
OneController {M} {G} command p true =
    (command.initializers ≡ [])
    × (initialize G p
        ≡ class_controller p.lb.cloud_config_map p.lb.namespace ∷ informers ∷ cache_sync ∷ [])
OneController {M} {G} command p false =
    (command.initializers
      ≡ (M.service_lb_controller, M.default_init_func_constructors M.service_lb_controller) ∷ [])
    × (initialize G p ≡ informers ∷ cache_sync ∷ [])

-- The value with which a process goes on.
pub goes_on-inj : {A : Type 0} {a b : A} → goes_on a ≡ goes_on b → a ≡ b
goes_on-inj h = cc

started-OneController :
    (M : Manager) (G : ClientGo) (env : Environment) (ns cm : String) (enabled : Bool)
    (client : G.Client) (command : Command M)
    → chosen_initializers M (env enable_loadbalancer_class_env_key) (some enabled)
      ≡ goes_on command.initializers
    → OneController command (provider_of G ns cm enabled client) enabled
unfolding initialize controller_initializers new_load_balancer
started-OneController M G env ns cm true client command h = (sym (goes_on-inj h), refl)
started-OneController M G env ns cm false client command h = (sym (goes_on-inj h), refl)

-- When main executes its command and the factory of the provider returns one for the same
-- environment, then exactly one controller reconciles services. With the class of load balancers
-- switched on, the cloud controller manager gets no controller at all and the provider starts the
-- controller of the class, with the config map that its load balancer manager reads; otherwise the
-- manager gets the default service controller and the provider starts none.
pub prepared_command-OneController :
    (M : Manager) (G : ClientGo) (env : Environment) (outside_cluster : Bool) {command : Command M}
    {p : KubeVipCloudProvider G}
    → prepared_command M env ≡ goes_on command
    → new_kube_vip_cloud_provider G env outside_cluster ≡ returns p
    → (enabled : Bool) × (class_enabled env ≡ some enabled) × OneController command p enabled
unfolding new_kube_vip_cloud_provider initializers_for
prepared_command-OneController M G env outside_cluster {command} {p} prepared provided =
    let (enabled, client, class, _, made) =
      with_class-parts G env outside_cluster (class_enabled env) provided in
    let ns = or_default (env "KUBEVIP_NAMESPACE") "kube-system" in
    let cm = or_default (env "KUBEVIP_CONFIG_MAP") "kubevip" in
    let chosen =
      ap (chosen_initializers M (env enable_loadbalancer_class_env_key)) (sym class)
      ∙ command-initializers M env prepared in
    (
      enabled,
      class,
      subst (λ q. OneController command q enabled) made
          (started-OneController M G env ns cm enabled client command chosen),
    )

-- The texts of a provider that is returned.
pub record IsConfigured (G : ClientGo) (env : Environment) (p : KubeVipCloudProvider G)
    : Type 0 where
  pub client : p.lb.kube_client ≡ p.kube_client
  pub lb_namespace : p.lb.namespace ≡ p.namespace
  pub lb_config_map : p.lb.cloud_config_map ≡ p.config_map_name
  pub namespace_given : is_empty p.namespace ≡ false
  pub config_map_given : is_empty p.config_map_name ≡ false
  pub own_namespace :
      is_empty (env "KUBEVIP_NAMESPACE") ≡ false → p.namespace ≡ env "KUBEVIP_NAMESPACE"
  pub own_config_map :
      is_empty (env "KUBEVIP_CONFIG_MAP") ≡ false → p.config_map_name ≡ env "KUBEVIP_CONFIG_MAP"

or_default-given :
    (text default : String) → is_empty default ≡ false → is_empty (or_default text default) ≡ false
or_default-given text default h = elim (Bool-cases (is_empty text)) [
  | inl e ↦ rw e h
  | inr e ↦ rw (e, e) refl
]

or_default-own : (text default : String) → is_empty text ≡ false → or_default text default ≡ text
or_default-own text default h = rw h refl

-- A provider that the factory returns has the class of load balancers as the environment says, a
-- client that was made, and a load balancer manager with its client, namespace and config map. The
-- namespace and the name of the config map are never empty, and they are the environment's where
-- it has them.
pub new_kube_vip_cloud_provider-IsConfigured :
    (G : ClientGo) (env : Environment) (outside_cluster : Bool) (p : KubeVipCloudProvider G)
    → new_kube_vip_cloud_provider G env outside_cluster ≡ returns p
    → (class_enabled env ≡ some p.enable_lb_class)
      × (connect G env outside_cluster ≡ returns p.kube_client)
      × IsConfigured G env p
unfolding new_kube_vip_cloud_provider new_load_balancer
new_kube_vip_cloud_provider-IsConfigured G env outside_cluster p h =
    let (enabled, client, class, connected, made) =
      with_class-parts G env outside_cluster (class_enabled env) h in
    subst
      (λ q.
        (class_enabled env ≡ some q.enable_lb_class)
        × (connect G env outside_cluster ≡ returns q.kube_client)
        × IsConfigured G env q)
      made
      (
        class,
        connected,
        record {
          client = refl;
          lb_namespace = refl;
          lb_config_map = refl;
          namespace_given = or_default-given (env "KUBEVIP_NAMESPACE") "kube-system" refl;
          config_map_given = or_default-given (env "KUBEVIP_CONFIG_MAP") "kubevip" refl;
          own_namespace = or_default-own (env "KUBEVIP_NAMESPACE") "kube-system";
          own_config_map = or_default-own (env "KUBEVIP_CONFIG_MAP") "kubevip";
        },
      )
