-- ===== src/Instance/Rollout.antt =====
-- The methods of `DragonflyInstance` for a rolling update.
pub mod Deletions
pub mod Gate
pub mod Sorting
pub mod Replacement
use dragonfly_operator.Prelude.{
  ℕ, String, Bool, true, false, not, ◌&&◌, ◌||◌, Option, none, some, List, [], ◌∷◌, ◌==◌,
  if◌then◌else◌, nat_eq,
}
use dragonfly_operator.Text.{text_lt}
use dragonfly_operator.Kube.{Pod, master}
use dragonfly_operator.Pods.{
  is_terminating, is_pod_on_latest_version, is_running_and_ready, role_exists, get_updated_replica,
}
use dragonfly_operator.Effects.Errors.{errorf, wrap}
use dragonfly_operator.Effects.Calls.{Env, M, ◌>>=◌, ◌>>◌, pure, fail, wrapping}
use dragonfly_operator.Effects.Actions.{get_df, do_event, do_list_pods, do_delete_pod}
use dragonfly_operator.Instance.Queries.{
  instance_labels, with_role, get_pods, is_pod_ready, is_replica_stable,
}
use dragonfly_operator.Instance.Roles.{configure_replica, patch_if_gated, repl_takeover}
use dragonfly_operator.Instance.Status.{get_master}

-- `ctrl.Result`: the seconds after which the request is queued again, or 0 for `ctrl.Result{}`.
abbrev pub Requeue : Type 0
Requeue = ℕ

-- `if result, err := f(); !result.IsZero() || err != nil { return result, err }`, and in a loop the
-- early return of one round.
abbrev pub or_wait : M Requeue → M Requeue → M Requeue
or_wait step rest = step >>= λ requeue. if nat_eq requeue 0 then rest else pure requeue

-- `sort.Slice` by name. Names of pods differ in a namespace, so the sorted order is the only one.
unfoldable pub insert_by_name : Pod → List Pod → List Pod
insert_by_name pod [] = pod ∷ []
insert_by_name pod (p ∷ pods) =
    if text_lt p.name pod.name then p ∷ insert_by_name pod pods else pod ∷ p ∷ pods

unfoldable pub sort_by_name : List Pod → List Pod
unfolding insert_by_name
sort_by_name [] = []
sort_by_name (pod ∷ pods) = insert_by_name pod (sort_by_name pods)

unfoldable pub has_terminating : List Pod → Bool
has_terminating [] = false
has_terminating (pod ∷ pods) = if is_terminating pod then true else has_terminating pods

-- The first pod that is not on the revision.
unfoldable pub find_outdated : List Pod → String → Option Pod
find_outdated [] revision = none
find_outdated (pod ∷ pods) revision =
    if not (is_pod_on_latest_version pod revision) then some pod else find_outdated pods revision

module _ (env : Env) (is_ipv4 : String → Bool) where
  -- The pod is to finish its startup and to get a role.
  unfoldable pub await_pod : Pod → M Requeue
  await_pod pod = do
    ready ← wrapping "failed to verify pod readiness" (is_pod_ready env pod)
    pure (if not ready || not (role_exists pod) then 5 else 0)

  -- One round of the loop of `allPodsHealthyAndHaveRole`.
  unfoldable pub check_pod : Pod → String → M Requeue
  unfolding await_pod
  check_pod pod revision =
      if is_terminating pod
      then pure 0
      else if not (is_pod_on_latest_version pod revision) && not (is_running_and_ready pod)
      then wrapping "failed to delete pod" (do_delete_pod env pod) >> pure 5
      else await_pod pod

  unfoldable pub check_pods : List Pod → String → M Requeue
  unfolding check_pod
  check_pods [] revision = pure 0
  check_pods (pod ∷ pods) revision = or_wait (check_pod pod revision) (check_pods pods revision)

  unfoldable pub all_pods_healthy_and_have_role : String → M Requeue
  unfolding check_pods sort_by_name
  all_pods_healthy_and_have_role revision = do
    pods ← wrapping "failed to get dragonfly pods" (get_pods env)
    check_pods (sort_by_name pods) revision

  -- One round of the loop of `verifyUpdatedReplicas`.
  unfoldable pub verify_replica : Pod → String → M Requeue
  verify_replica replica revision =
      if is_pod_on_latest_version replica revision
      then (do
        stable ← wrapping "failed to check if replica is stable" (is_replica_stable env replica)
        patched ←
            wrapping "failed to patch replication ready condition"
              (patch_if_gated env is_ipv4 replica stable)
        pure (if stable then 0 else 5))
      else pure 0

  unfoldable pub verify_updated_replicas : List Pod → String → M Requeue
  unfolding verify_replica
  verify_updated_replicas [] revision = pure 0
  verify_updated_replicas (replica ∷ replicas) revision =
      or_wait (verify_replica replica revision) (verify_updated_replicas replicas revision)

  abbrev pub delete_outdated_replica : List Pod → Option Pod → M (Requeue × List Pod)
  delete_outdated_replica sorted none = pure (0, sorted)
  delete_outdated_replica sorted (some replica) = do
    do_event "Rollout" "Deleting replica"
    wrapping "failed to delete pod" (do_delete_pod env replica)
    pure (5, sorted)

  -- One replica goes at a time: none while one is terminating.
  unfoldable pub replace_one : List Pod → String → M (Requeue × List Pod)
  unfolding has_terminating find_outdated
  replace_one sorted revision =
      if has_terminating sorted
      then pure (5, sorted)
      else delete_outdated_replica sorted (find_outdated sorted revision)

  -- The replicas are sorted in place, so the sorted list is a result too.
  unfoldable pub update_replicas : List Pod → String → M (Requeue × List Pod)
  unfolding get_master sort_by_name replace_one
  update_replicas replicas revision = do
    current ← wrapping "failed to get master before deleting replica" (get_master env)
    replace_one (sort_by_name replicas) revision

  -- One round of the loop of `updatedMaster` over the other replicas.
  unfoldable pub follow_one : Pod → Pod → M (Unit {0})
  follow_one new_master replica = if replica.name == new_master.name then pure tt else do
    ready ← wrapping "failed to verify replica readiness" (is_pod_ready env replica)
    if ready
        then (do
          configured ←
              wrapping "failed to configure pod as replica"
                (configure_replica env is_ipv4 replica new_master.pod_ip)
          pure tt)
        else pure tt

  unfoldable pub follow_master : Pod → List Pod → M (Unit {0})
  unfolding follow_one
  follow_master new_master [] = pure tt
  follow_master new_master (replica ∷ replicas) =
      follow_one new_master replica >> follow_master new_master replicas

  abbrev pub promote : Pod → List Pod → Option Pod → M (Unit {0})
  promote old_master replicas none =
      fail (wrap "failed to get updated replica" (errorf "no replica pod found on latest version"))
  promote old_master replicas (some replica) = do
    new_master ← wrapping "failed to update master" (repl_takeover env is_ipv4 replica old_master)
    follow_master new_master replicas

  unfoldable pub updated_master : Pod → List Pod → String → M (Unit {0})
  unfolding follow_master repl_takeover get_updated_replica
  updated_master old_master [] revision =
      wrapping "failed to delete pod" (do_delete_pod env old_master)
  updated_master old_master (replica ∷ replicas) revision =
      promote old_master (replica ∷ replicas) (get_updated_replica (replica ∷ replicas) revision)

  -- One round of the loop of `detectOldMasters`.
  unfoldable pub delete_if_outdated : Pod → String → M (Unit {0})
  delete_if_outdated pod revision =
      if not (is_pod_on_latest_version pod revision)
      then wrapping "failed to delete pod" (do_delete_pod env pod)
      else pure tt

  unfoldable pub delete_outdated : List Pod → String → M (Unit {0})
  unfolding delete_if_outdated
  delete_outdated [] revision = pure tt
  delete_outdated (pod ∷ pods) revision =
      delete_if_outdated pod revision >> delete_outdated pods revision

  unfoldable pub detect_old_masters : String → M (Unit {0})
  unfolding delete_outdated
  detect_old_masters revision = do
    df ← get_df
    pods ←
        wrapping "failed to list pods"
          (do_list_pods env df.namespace (with_role (instance_labels df) master))
    delete_outdated pods revision
