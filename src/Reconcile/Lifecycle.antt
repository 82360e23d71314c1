-- ===== src/Reconcile/Lifecycle.antt =====
-- `DfPodLifeCycleReconciler.Reconcile`
-- (internal/controller/dragonfly_pod_lifecycle_controller.go).
pub mod Safety
pub mod Clients
pub mod Events
use dragonfly_operator.Prelude.{
  String, Bool, true, false, not, Option, none, some, List, ◌∷◌, ◌==◌, if◌then◌else◌,
}
use dragonfly_operator.Kube.{Pod, master}
use dragonfly_operator.Pods.{get_dragonfly_name, role_exists, is_master, is_replica}
use dragonfly_operator.Election.{select_master_candidate}
use dragonfly_operator.Effects.Errors.{
  Err, wrap, Result, ok, err, is_master_error, is_unusable_master_error, ignore_not_found,
  is_replication_cancelled_error,
}
use dragonfly_operator.Effects.Calls.{
  Env, M, Instance, History, get_pod, ◌>>=◌, ◌>>◌, pure, fail, attempt, wrapping,
}
use dragonfly_operator.Effects.Actions.{get_df, do_event}
use dragonfly_operator.Instance.Queries.{
  get_pods, is_pod_ready, is_replica_stable, get_redis_role, get_master_candidate,
}
use dragonfly_operator.Instance.Roles.{
  configure_replica, replica_of_no_one, patch_replication_ready_condition,
}
use dragonfly_operator.Instance.Status.{
  get_status, patch_status, get_master, is_ready_phase, phase_not_ready,
}
use dragonfly_operator.Instance.Replication.{
  or_false, configure_replication, check_and_configure_replicas, delete_master_role_label,
}
use dragonfly_operator.Instance.Rollout.{Requeue}
use dragonfly_operator.Reconcile.Base.{with_instance}

-- A cancelled replication is tried again after 3 seconds; any other error is wrapped.
abbrev pub unless_cancelled {ℓ} : {A : Type ℓ} → String → (A → M Requeue) → Result A → M Requeue
unless_cancelled prefix next (ok a) = next a
unless_cancelled prefix next (err e) =
    if is_replication_cancelled_error e then pure 3 else fail (wrap prefix e)

-- `err == nil && role != resources.Master`.
abbrev pub is_demoted : Result String → Bool
is_demoted (err e) = false
is_demoted (ok role) = not (role == master)

module _ (env : Env) (is_ipv4 : String → Bool) where
  -- The two callbacks of the election; an error in the first is logged.
  abbrev pub ready_or_false : Pod → Instance → Bool × Instance
  ready_or_false p s = let (r, t) = is_pod_ready env p s in (or_false r, t)

  unfoldable pub elect_candidate : List Pod → M (Option Pod)
  unfolding select_master_candidate is_pod_ready get_master_candidate
  elect_candidate pods s =
      let (found, t) = select_master_candidate ready_or_false (get_master_candidate env) pods s in
      (ok found, t)

  -- There is no candidate: the status says so, if it said `Ready`, and the request is queued again.
  unfoldable pub mark_not_ready : M Requeue
  unfolding patch_status
  mark_not_ready = do
    status ← get_status
    (if is_ready_phase status
        then wrapping "failed to update the dragonfly status"
            (patch_status env (record status { phase = phase_not_ready }))
        else pure tt)
    pure 5

  abbrev pub initial : Bool → Option Pod → M Requeue
  initial pod_ready none = mark_not_ready
  initial pod_ready (some candidate) = do
    configured ← attempt (configure_replication env is_ipv4 candidate)
    unless_cancelled "failed to configure replication"
        (λ _.
          do_event "Replication" "Initial replication configured"
          >> pure (if pod_ready then 0 else 5))
        configured

  -- No usable master: elect one.
  unfoldable pub elect : Bool → Err → M Requeue
  unfolding delete_master_role_label get_pods elect_candidate mark_not_ready configure_replication
  elect pod_ready e = do
    (if is_unusable_master_error e
        then wrapping "failed to delete master role label" (delete_master_role_label env is_ipv4)
        else pure tt)
    pods ← wrapping "failed to list dragonfly pods" (get_pods env)
    candidate ← elect_candidate pods
    initial pod_ready candidate

  -- The readiness gate at the end.
  unfoldable pub update_gate : Pod → M Requeue
  unfolding patch_replication_ready_condition is_replica_stable
  update_gate pod = do
    df ← get_df
    if not df.spec.enable_replication_readiness_gate
        then pure 0
        else if is_master pod
        then (wrapping "failed to patch replication ready condition"
              (patch_replication_ready_condition env is_ipv4 pod true)
            >>= λ _. pure 0)
        else if is_replica pod
        then (do
          stable ← attempt (is_replica_stable env pod)
          patched ←
              wrapping "failed to patch replication ready condition"
                (patch_replication_ready_condition env is_ipv4 pod (or_false stable))
          pure (if or_false stable then 0 else 5))
        else pure 0

  -- The pod is ready, and there is a master.
  unfoldable pub settle : Pod → Pod → M Requeue
  unfolding configure_replica check_and_configure_replicas update_gate
  settle pod current = do
    status ← get_status
    if role_exists pod
        then if is_ready_phase status
          then (do
            checked ← attempt (check_and_configure_replicas env is_ipv4 current.pod_ip)
            unless_cancelled "failed to check and configure replicas"
                (λ _.
                  do_event "Replication" "Checked and configured replication" >> update_gate pod)
                checked)
          else update_gate pod
        else do
          configured ← attempt (configure_replica env is_ipv4 pod current.pod_ip)
          unless_cancelled "failed to configure pod as replica"
              (λ updated. do_event "Replication" "Configured a new replica" >> update_gate updated)
              configured

  unfoldable pub follow : Pod → Bool → Pod → M Requeue
  unfolding get_redis_role replica_of_no_one settle
  follow pod pod_ready current = do
    role ← attempt (get_redis_role env current)
    if is_demoted role
        then (wrapping "failed to promote master" (replica_of_no_one env is_ipv4 current) >>= λ _.
            pure 2)
        else if not pod_ready
        then pure 5
        else settle pod current

  abbrev pub with_master : Pod → Bool → Result Pod → M Requeue
  with_master pod pod_ready (ok current) = follow pod pod_ready current
  with_master pod pod_ready (err e) =
      if is_master_error e then elect pod_ready e else fail (wrap "failed to get master pod" e)

  unfoldable pub reconcile_pod : Pod → M Requeue
  unfolding is_pod_ready get_master elect follow
  reconcile_pod pod = do
    pod_ready ← wrapping "failed to verify pod readiness" (is_pod_ready env pod)
    found ← attempt (get_master env)
    with_master pod pod_ready found

  abbrev pub for_name : Pod → Option String → History → Result Requeue × History
  for_name pod none calls = (ok 0, calls)
  for_name pod (some df_name) calls =
      with_instance env pod.namespace df_name (reconcile_pod pod) calls

  abbrev pub for_pod : Result Pod → History → Result Requeue × History
  for_pod (err e) calls = (ignore_not_found 0 (wrap "failed to get pod" e), calls)
  for_pod (ok pod) calls = for_name pod (get_dragonfly_name pod) calls

  unfoldable pub reconcile : String → String → History → Result Requeue × History
  unfolding with_instance ignore_not_found reconcile_pod get_dragonfly_name
  reconcile namespace name calls =
      for_pod (env.get_pod calls namespace name) (get_pod namespace name ∷ calls)
