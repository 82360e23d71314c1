-- ===== src/Manager/Entry.antt =====
-- The entry point (`main` in cmd/main.go): the options of the manager, the registration of the
-- controllers, and the start.
pub mod Started
use dragonfly_operator.Prelude.{ℕ, String, Bool, true, false, Option, List, [], ◌∷◌, if◌then◌else◌}
use dragonfly_operator.Prelude.Dict.{Dict}
use dragonfly_operator.Manager.{Start, watch_namespaces, add_namespaces_to_opts, pod_cache_labels}

abbrev pub version : String
version = "source"

-- The flags after `flag.Parse`; `watch-current-namespace` is in `Start`.
pub record Flags : Type 0 where
  pub metrics_addr : String
  pub probe_addr : String
  pub dragonfly_image : String
  pub enable_leader_election : Bool
  pub version_flag : Bool

-- The flags where none is given.
abbrev pub default_flags : Flags
default_flags = record {
  metrics_addr = ":8080";
  probe_addr = ":8081";
  dragonfly_image = "";
  enable_leader_election = false;
  version_flag = false;
}

-- `ctrl.Options`, as far as `main` sets it; the default namespaces are `none` where they are not set.
pub record ManagerOptions : Type 0 where
  pub pod_labels : Dict String
  pub default_namespaces : Option (Dict (Unit {0}))
  pub metrics_bind_address : String
  pub webhook_port : ℕ
  pub health_probe_bind_address : String
  pub leader_election : Bool
  pub leader_election_id : String
  pub leader_election_release_on_cancel : Bool

pub data Kind : Type 0 where
  dragonfly stateful_set service config_map pod : Kind

-- A controller as `SetupWithManager` builds it: what it is for, whether only changes of the generation
-- are let through, what it owns, its name, and the default image of its `Reconciler`.
pub record Controller : Type 0 where
  pub for_kind : Kind
  pub generation_changed : Bool
  pub owns : List Kind
  pub name : String
  pub default_dragonfly_image : String

-- The calls of `main`.
pub data Step : Type 0 where
  print_version : String → Step
  get_config : Step
  new_manager : ManagerOptions → Step
  new_clientset : Step
  start_structured_logging : ℕ → Step
  start_recording_to_sink : Step
  new_recorder : String → Step
  set_up : Controller → Step
  add_healthz_check : String → Step
  add_readyz_check : String → Step
  start_manager : Step
  shut_down_broadcaster : Step

unfoldable pub manager_options : Flags → Start → ManagerOptions
unfolding watch_namespaces add_namespaces_to_opts
manager_options flags start = record {
  pod_labels = pod_cache_labels;
  default_namespaces = add_namespaces_to_opts (watch_namespaces start);
  metrics_bind_address = flags.metrics_addr;
  webhook_port = 9443;
  health_probe_bind_address = flags.probe_addr;
  leader_election = flags.enable_leader_election;
  leader_election_id = "31079dea.dragonflydb.io";
  leader_election_release_on_cancel = true;
}

-- `DragonflyReconciler.SetupWithManager`.
unfoldable pub dragonfly_controller : Flags → Controller
dragonfly_controller flags = record {
  for_kind = dragonfly;
  generation_changed = true;
  owns = stateful_set ∷ service ∷ config_map ∷ [];
  name = "Dragonfly";
  default_dragonfly_image = flags.dragonfly_image;
}

-- `DfPodLifeCycleReconciler.SetupWithManager`; its event filter is `is_admitted` of the pod lifecycle
-- controller.
unfoldable pub pod_life_cycle_controller : Flags → Controller
pod_life_cycle_controller flags = record {
  for_kind = pod;
  generation_changed = false;
  owns = [];
  name = "DragonflyPodLifecycle";
  default_dragonfly_image = flags.dragonfly_image;
}

-- The exit status, and the calls, the latest first.
abbrev pub Exit : Type 0
Exit = ℕ × List Step

-- Whether a call answers with an error, by the calls before it. It is not part of this repository.
module _ (refuses : List Step → Step → Bool) where
  -- A call whose error ends the program, with no deferred call.
  unfoldable pub must : Step → (List Step → Exit) → List Step → Exit
  must step rest done = if refuses done step then (1, step ∷ done) else rest (step ∷ done)

  -- A call that answers with no error.
  abbrev pub does : Step → (List Step → Exit) → List Step → Exit
  does step rest done = rest (step ∷ done)

  -- `main` returns, after the deferred call.
  abbrev pub returns : List Step → Exit
  returns done = (0, shut_down_broadcaster ∷ done)

  -- From the event recorder on.
  unfoldable pub run_controllers : Flags → List Step → Exit
  unfolding must dragonfly_controller pod_life_cycle_controller
  run_controllers flags = does (start_structured_logging 4) (
      does start_recording_to_sink (
        does (new_recorder "dragonfly-operator") (
          must (set_up (dragonfly_controller flags)) (
            must (set_up (pod_life_cycle_controller flags)) (
              must (add_healthz_check "healthz")
                (must (add_readyz_check "readyz") (must start_manager returns)))))))

  unfoldable pub main : Flags → Start → Exit
  unfolding must manager_options run_controllers
  main flags start =
      if flags.version_flag
      then (0, print_version version ∷ [])
      else must get_config
          (must (new_manager (manager_options flags start))
            (must get_config (must new_clientset (run_controllers flags))))
          []
