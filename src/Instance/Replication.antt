-- ===== src/Instance/Replication.antt =====
-- The methods of `DragonflyInstance` that give roles to all pods.
use dragonfly_operator.Prelude.{String, Bool, true, false, List, [], ◌∷◌, ◌==◌, if◌then◌else◌}
use dragonfly_operator.Kube.{Pod}
use dragonfly_operator.Pods.{is_master, is_replica, role_exists}
use dragonfly_operator.Effects.Errors.{Result, ok, err}
use dragonfly_operator.Effects.Calls.{Env, M, ◌>>=◌, ◌>>◌, pure, attempt, wrapping}
use dragonfly_operator.Effects.Actions.{get_df, do_event}
use dragonfly_operator.Instance.Queries.{
  get_pods, is_pod_ready, is_replica_stable, check_replica_role,
}
use dragonfly_operator.Instance.Roles.{
  replica_of_no_one, configure_replica, patch_if_gated, delete_role_label,
}
use dragonfly_operator.Instance.Status.{get_status, patch_status, phase_configuring, phase_ready}

-- `if stableErr != nil { stable = false }`.
abbrev pub or_false : Result Bool → Bool
or_false (ok b) = b
or_false (err e) = false

module _ (env : Env) (is_ipv4 : String → Bool) where
  -- With the readiness gate the condition of a replica says whether it is in stable sync.
  unfoldable pub patch_stable_if_gated : Pod → M (Unit {0})
  unfolding patch_if_gated
  patch_stable_if_gated pod = do
    df ← get_df
    if df.spec.enable_replication_readiness_gate
        then (do
          stable ← attempt (is_replica_stable env pod)
          patched ← patch_if_gated env is_ipv4 pod (or_false stable)
          pure tt)
        else pure tt

  -- One round of the loop of `configureReplication`.
  unfoldable pub configure_other : Pod → Pod → M (Unit {0})
  unfolding patch_stable_if_gated
  configure_other master pod = if pod.name == master.name then pure tt else do
    ready ← is_pod_ready env pod
    if ready
        then (do
          configured ← configure_replica env is_ipv4 pod master.pod_ip
          patch_stable_if_gated configured)
        else pure tt

  unfoldable pub configure_others : Pod → List Pod → M (Unit {0})
  unfolding configure_other
  configure_others master [] = pure tt
  configure_others master (pod ∷ pods) = do configure_other master pod; configure_others master pods

  unfoldable pub configure_replication : Pod → M (Unit {0})
  unfolding configure_others patch_status
  configure_replication master = do
    pods ← get_pods env
    status ← get_status
    patch_status env (record status { phase = phase_configuring })
    promoted ← replica_of_no_one env is_ipv4 master
    patch_status env (record status { phase = phase_ready })
    do_event "Replication" "Updated master instance"
    gated ← patch_if_gated env is_ipv4 promoted true
    configure_others gated pods

  -- A replica is pointed to the master, if it is not so yet. The pod is the answer of the API server.
  unfoldable pub repoint : Pod → String → M Pod
  repoint pod master_ip =
      if is_replica pod
      then (do
        right ← check_replica_role env pod master_ip
        if right then pure pod else configure_replica env is_ipv4 pod master_ip)
      else pure pod

  -- One round of the loop of `checkAndConfigureReplicas`.
  unfoldable pub check_replica : Pod → String → M (Unit {0})
  unfolding repoint
  check_replica pod master_ip = do
    current ← repoint pod master_ip
    if role_exists current then pure tt else do
      ready ← is_pod_ready env current
      if ready
          then (do configured ← configure_replica env is_ipv4 current master_ip; pure tt)
          else pure tt

  unfoldable pub check_replicas : List Pod → String → M (Unit {0})
  unfolding check_replica
  check_replicas [] master_ip = pure tt
  check_replicas (pod ∷ pods) master_ip = do
    check_replica pod master_ip
    check_replicas pods master_ip

  unfoldable pub check_and_configure_replicas : String → M (Unit {0})
  unfolding check_replicas
  check_and_configure_replicas master_ip = do pods ← get_pods env; check_replicas pods master_ip

  unfoldable pub delete_role_labels : List Pod → M (Unit {0})
  delete_role_labels [] = pure tt
  delete_role_labels (pod ∷ pods) =
      if is_master pod
      then (do unlabelled ← delete_role_label env is_ipv4 pod; delete_role_labels pods)
      else delete_role_labels pods

  unfoldable pub delete_master_role_label : M (Unit {0})
  unfolding delete_role_labels
  delete_master_role_label = do
    pods ← wrapping "failed to get dragonfly pods" (get_pods env)
    delete_role_labels pods
