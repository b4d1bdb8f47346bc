-- ===== src/Command.antt =====
-- The command of main.go: the controllers that it hands to the cloud controller manager, and the
-- flags that it sets.
pub mod Controllers
pub mod Flags
mod Tests
use kube_vip_cloud_provider.Prelude.{
  ℕ, zero, suc, ◌+◌, ◌-◌, ◌*◌, ◌/◌, ◌%◌, ◌^◌, ◌≤◌, ◌<◌, String, ◌≡◌, refl, sym, ap, ◌∙◌, subst, ◌≢◌,
  ◌↔◌, ◌⊎◌, inl, inr, Bool, true, false, not, ◌&&◌, ◌||◌, Option, none, some, List, [], ◌∷◌, ◌++◌,
  map, arith, str_eq, eq_iff, ltb, leb, ◌==◌, if◌then◌else◌, ==_iff, Bool-cases, Option-cases,
  split, contains_byte, is_empty, concat, join, append_text, first_code, length, All, Any, GoError,
  Result, ◌>>=◌, Result-cases, >>=-eq-ok, out_of_ips, errorf, foreign, diverged, err, ok,
}
use kube_vip_cloud_provider.Provider.Registration.{
  Environment, Outcome, returns, fails, panics, provider_name, enable_loadbalancer_class_env_key,
  class_enabled,
}

-- A flag of a command: its name, its value, and what its value's Set makes of a text.
pub record Flag : Type 0 where
  pub name : String
  pub value : String
  pub parse : String → Result String

-- What the command takes of k8s.io/cloud-provider, of pflag and of strconv.
pub record Manager : Type 1 where
  -- app.ControllerInitFuncConstructor
  pub Constructor : Type 0
  pub service_lb_controller : String
  pub default_init_func_constructors : String → Option Constructor
  pub Options : Type 0
  pub new_options : Result Options
  -- the flags of the command for the options, and BoolVar, in the order of VisitAll
  pub command_flags : Options → List Flag
  pub bool_var : String → Bool → List Flag → List Flag
  pub error_text : GoError → String
  pub parse_bool_text : String → String

-- The process goes on with a value, or it ends: by os.Exit(1) with what it wrote to stderr, by
-- klog.Fatalf or by a panic.
pub data Process (A : Type 0) : Type 0 where
  goes_on : A → Process A
  exits : String → Process A
  fatal : String → Process A

-- What comes after a step of the process.
abbrev pub and_then : {A B : Type 0} → (A → Process B) → Process A → Process B
and_then next (goes_on a) = next a
and_then next (exits text) = exits text
and_then next (fatal text) = fatal text

abbrev pub stored : Flag → Result String → Result Flag
stored flag (ok text) = ok (record flag { value = text })
stored flag (err e) = err e

-- The visitor of the flags. The names of the flags that it sets need no escapes in quotes.
unfoldable pub set_static : Flag → Result Flag
set_static flag =
    if str_eq flag.name "allow-untagged-cloud" || str_eq flag.name "authentication-skip-lookup"
    then stored flag (flag.parse "true")
    else if str_eq flag.name "cloud-provider"
    then stored flag (flag.parse provider_name)
    else ok flag

module _ (M : Manager) where
  -- A map of controllers, of which the constructor may be nil.
  abbrev pub Initializers : Type 0
  Initializers = List (String × Option M.Constructor)

  unfoldable pub controller_initializers : Initializers
  controller_initializers =
      (M.service_lb_controller, M.default_init_func_constructors M.service_lb_controller) ∷ []

  abbrev pub chosen_initializers : String → Option Bool → Process Initializers
  chosen_initializers text none = exits (
      concat (
        enable_loadbalancer_class_env_key
        ∷ " value '"
        ∷ text
        ∷ "' is invalid, "
        ∷ M.parse_bool_text text
        ∷ "\n"
        ∷ []))
  chosen_initializers text (some enabled) =
      if enabled then goes_on [] else goes_on controller_initializers

  -- The check of the environment at the start of main.
  unfoldable pub initializers_for : Environment → Process Initializers
  initializers_for env =
      chosen_initializers (env enable_loadbalancer_class_env_key) (class_enabled env)

  abbrev pub visited : String → Result Flag → Process (List Flag) → Process (List Flag)
  visited name (err e) rest =
      exits (concat ("failed to set flag \"" ∷ name ∷ "\": " ∷ M.error_text e ∷ "\n" ∷ []))
  visited name (ok flag) rest = and_then (λ flags. goes_on (flag ∷ flags)) rest

  -- `command.Flags().VisitAll`
  unfoldable pub visit_all : List Flag → Process (List Flag)
  visit_all [] = goes_on []
  visit_all (flag ∷ flags) = visited flag.name (set_static flag) (visit_all flags)

  -- The command that main executes.
  pub record Command : Type 0 where
    pub options : M.Options
    pub initializers : Initializers
    pub flags : List Flag

  abbrev pub command_of : M.Options → Initializers → List Flag → Command
  command_of opts initializers flags = record {
    options = opts;
    initializers = initializers;
    flags = flags;
  }

  abbrev pub with_flags : M.Options → Initializers → Process Command
  with_flags opts initializers =
      and_then (λ flags. goes_on (command_of opts initializers flags))
        (visit_all (M.bool_var "OutSideCluster" false (M.command_flags opts)))

  abbrev pub with_options : Environment → Result M.Options → Process Command
  with_options env (err e) =
      fatal (append_text "unable to initialize command options: " (M.error_text e))
  with_options env (ok opts) = and_then (with_flags opts) (initializers_for env)

  unfoldable pub prepared_command : Environment → Process Command
  prepared_command env = with_options env M.new_options

  abbrev pub exit_status : Option GoError → Process Unit
  exit_status none = goes_on tt
  exit_status (some e) = exits ""

  -- main, for what the command's Execute gives
  unfoldable pub main : (Command → Option GoError) → Environment → Process Unit
  unfolding prepared_command
  main execute env = and_then (λ command. exit_status (execute command)) (prepared_command env)

  -- What cloudprovider.InitCloudProvider gives for a name and a file of configuration.
  abbrev pub checked_cloud : {A : Type 0} → Outcome (Option A) → Process A
  checked_cloud (fails e) =
      fatal (append_text "Cloud provider could not be initialized: " (M.error_text e))
  checked_cloud (panics text) = fatal text
  checked_cloud (returns none) = fatal "Cloud provider is nil"
  checked_cloud (returns (some cloud)) = goes_on cloud

  unfoldable pub cloud_initializer :
      {A : Type 0} → (String → String → Outcome (Option A)) → Process A
  cloud_initializer init_cloud_provider = checked_cloud (init_cloud_provider provider_name "")
