-- ===== src/Reconcile/Rollout.antt =====
-- `DragonflyReconciler.Reconcile` (internal/controller/dragonfly_controller.go) after
-- `reconcileResources`: the detection of a rolling update, and its steps.
pub mod Safety
pub mod Order
pub mod Completion
pub mod Calm
pub mod Path
pub mod Steps
pub mod Deleting
pub mod Takeover
pub mod Standing
pub mod Liveness
use dragonfly_operator.Prelude.{
  suc, String, Bool, false, not, ◌||◌, List, ◌==◌, nat_eq, length, if◌then◌else◌,
}
use dragonfly_operator.Prelude.Int.{ℤ, pos, negsuc}
use dragonfly_operator.Kube.{Pod, DragonflyStatus}
use dragonfly_operator.Pods.{is_pod_on_latest_version}
use dragonfly_operator.Effects.Errors.{Result, wrap, ok, err, is_master_error}
use dragonfly_operator.Effects.Calls.{Env, M, ◌>>=◌, ◌>>◌, pure, fail, attempt, wrapping}
use dragonfly_operator.Effects.Actions.{get_df, do_event}
use dragonfly_operator.Instance.Queries.{get_stateful_set, get_replicas}
use dragonfly_operator.Instance.Status.{
  get_status, patch_status, get_master, detect_rolling_update, is_ready_phase, is_rolling,
  phase_not_ready, phase_ready,
}
use dragonfly_operator.Instance.Rollout.{
  Requeue, or_wait, all_pods_healthy_and_have_role, verify_updated_replicas, update_replicas,
  updated_master, detect_old_masters,
}

-- `len(replicas.Items) == int(dfi.df.Spec.Replicas)-1`.
abbrev pub is_complete : List Pod → ℤ → Bool
is_complete pods (pos n) = nat_eq (suc (length pods)) n
is_complete pods (negsuc n) = false

module _ (env : Env) (is_ipv4 : String → Bool) where
  unfoldable pub complete_rollout : DragonflyStatus → M Requeue
  unfolding patch_status
  complete_rollout status = do
    wrapping "failed to update the dragonfly status"
        (patch_status env (record status { phase = phase_ready; is_rolling_update = false }))
    do_event "Rollout" "Completed"
    pure 0

  abbrev pub roll_found : DragonflyStatus → List Pod → String → Result Pod → M Requeue
  roll_found status replicas revision (err e) =
      if is_master_error e then pure 2 else fail (wrap "failed to get master" e)
  roll_found status replicas revision (ok master) =
      if not (is_pod_on_latest_version master revision)
      then wrapping "failed to update master" (updated_master env is_ipv4 master replicas revision)
        >> pure 5
      else wrapping "failed to detect old masters" (detect_old_masters env is_ipv4 revision)
        >> complete_rollout status

  -- All replicas are on the revision: the master's turn.
  unfoldable pub roll_master : DragonflyStatus → List Pod → String → M Requeue
  unfolding updated_master detect_old_masters complete_rollout
  roll_master status replicas revision = do
    found ← attempt (get_master env)
    roll_found status replicas revision found

  unfoldable pub after_update : DragonflyStatus → String → Requeue × List Pod → M Requeue
  unfolding roll_master
  after_update status revision (requeue, sorted) =
      if nat_eq requeue 0 then roll_master status sorted revision else pure requeue

  -- The replicas are all there: first the updated ones are to be stable, then an outdated one goes.
  unfoldable pub update_step : DragonflyStatus → String → List Pod → M Requeue
  unfolding verify_updated_replicas update_replicas after_update
  update_step status revision replicas =
      or_wait (verify_updated_replicas env is_ipv4 replicas revision)
        (update_replicas env is_ipv4 replicas revision >>= after_update status revision)

  unfoldable pub roll_replicas : DragonflyStatus → String → M Requeue
  unfolding get_replicas update_step
  roll_replicas status revision = do
    replicas ← wrapping "failed to get replicas" (get_replicas env)
    df ← get_df
    if not (is_complete replicas df.spec.replicas)
        then pure 5
        else update_step status revision replicas

  unfoldable pub roll_out : DragonflyStatus → M Requeue
  unfolding get_stateful_set all_pods_healthy_and_have_role roll_replicas
  roll_out status = do
    stateful_set ← wrapping "failed to get statefulset" (get_stateful_set env)
    let revision = stateful_set.update_revision
    or_wait (all_pods_healthy_and_have_role env is_ipv4 revision) (roll_replicas status revision)

  -- The status to go on with.
  unfoldable pub current_status : M DragonflyStatus
  unfolding detect_rolling_update
  current_status = do
    status ← get_status
    if is_ready_phase status || status.phase == phase_not_ready
        then wrapping "failed to detect rolling update" (detect_rolling_update env)
        else pure status

  unfoldable pub reconcile_status : M Requeue
  unfolding current_status roll_out
  reconcile_status = do
    status ← current_status
    if is_rolling status then roll_out status else pure 0
