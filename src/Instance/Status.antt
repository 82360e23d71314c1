-- ===== src/Instance/Status.antt =====
-- The status of the custom resource and its phases (internal/controller/util.go), and `getMaster`.
pub mod Master
pub mod Detection
use dragonfly_operator.Prelude.{String, Bool, true, false, ◌||◌, List, [], ◌∷◌, ◌==◌, if◌then◌else◌}
use dragonfly_operator.Kube.{Pod, Dragonfly, DragonflyStatus, master, stateful_set_revision_label}
use dragonfly_operator.Pods.{need_rolling_update}
use dragonfly_operator.Effects.Errors.{no_master, no_healthy_master, incorrect_masters, ok}
use dragonfly_operator.Effects.Calls.{Env, M, ◌>>=◌, ◌>>◌, pure, fail, wrapping, gets, set_df}
use dragonfly_operator.Effects.Actions.{get_df, do_event, do_list_pods, do_patch_dragonfly_status}
use dragonfly_operator.Instance.Queries.{
  instance_labels, with_role, get_stateful_set, get_pods, is_pod_ready,
}

abbrev pub phase_resources_created : String
phase_resources_created = "ResourcesCreated"

abbrev pub phase_ready : String
phase_ready = "Ready"

abbrev pub phase_rolling_update : String
phase_rolling_update = "RollingUpdate"

abbrev pub phase_configuring : String
phase_configuring = "Configuring"

abbrev pub phase_not_ready : String
phase_not_ready = "NotReady"

abbrev pub phase_ready_old : String
phase_ready_old = "ready"

abbrev pub is_ready_phase : DragonflyStatus → Bool
is_ready_phase status = status.phase == phase_ready || status.phase == phase_ready_old

abbrev pub is_rolling : DragonflyStatus → Bool
is_rolling status = status.phase == phase_rolling_update || status.is_rolling_update

abbrev pub get_status : M DragonflyStatus
get_status = gets (λ s. s.df.status)

module _ (env : Env) where
  -- The status is set before the call, and stays set if the call fails.
  unfoldable pub patch_status : DragonflyStatus → M (Unit {0})
  patch_status status = do
    before ← get_df
    let after = record before { status = status }
    set_df after
    answer ← do_patch_dragonfly_status env before after
    set_df answer

  unfoldable pub detect_rolling_update : M DragonflyStatus
  unfolding get_stateful_set get_pods patch_status
  detect_rolling_update = do
    status ← get_status
    stateful_set ← wrapping "failed to get statefulset" (get_stateful_set env)
    pods ← wrapping "failed to get dragonfly pods" (get_pods env)
    let rolling = record status { phase = phase_rolling_update }
    if need_rolling_update pods stateful_set
        then (do
          do_event "Rollout" "Starting a rollout"
          wrapping "failed to update the dragonfly status" (patch_status rolling)
          do_event "Resources" "Performing a rollout"
          pure rolling)
        else pure status

  -- The pods that are ready, in their order.
  unfoldable pub healthy_masters : List Pod → M (List Pod)
  healthy_masters [] = pure []
  healthy_masters (pod ∷ pods) = do
    ready ← wrapping "failed to verify master readiness" (is_pod_ready env pod)
    healthy ← healthy_masters pods
    pure (if ready then pod ∷ healthy else healthy)

  abbrev pub is_nil : List Pod → Bool
  is_nil [] = true
  is_nil (pod ∷ pods) = false

  abbrev pub the_one : List Pod → M Pod
  the_one [] = fail no_healthy_master
  the_one (pod ∷ []) = pure pod
  the_one (pod ∷ other ∷ pods) = fail incorrect_masters

  -- The pods with the role of a master: those on the updated revision during a rolling update, and
  -- all of them if there is none or the phase is `Ready`.
  unfoldable pub master_pods : M (List Pod)
  unfolding get_stateful_set
  master_pods = do
    df ← get_df
    let labels = with_role (instance_labels df) master
    updated ←
        (if is_rolling df.status
          then (do
            stateful_set ← wrapping "failed to get statefulset" (get_stateful_set env)
            wrapping "failed to list pods" (
                do_list_pods env df.namespace
                  ((stateful_set_revision_label, stateful_set.update_revision) ∷ labels)))
          else pure [])
    if is_ready_phase df.status || is_nil updated
        then wrapping "failed to list pods" (do_list_pods env df.namespace labels)
        else pure updated

  unfoldable pub get_master : M Pod
  unfolding master_pods healthy_masters
  get_master = do
    pods ← master_pods
    if is_nil pods then fail no_master else do healthy ← healthy_masters pods; the_one healthy
