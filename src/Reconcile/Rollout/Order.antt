-- ===== src/Reconcile/Rollout/Order.antt =====
-- What a step of a rolling update does while replicas are outdated (`DragonflyReconciler.Reconcile`).
use dragonfly_operator.Prelude.{
  String, Bool, true, false, not, List, Option, none, some, ◌≡◌, ◌≢◌, refl, ap, arith, ◌∙◌,
}
use dragonfly_operator.Kube.{Pod, DragonflyStatus}
use dragonfly_operator.Pods.{is_pod_on_latest_version, has_outdated}
use dragonfly_operator.Effects.Errors.{Result, ok, err}
use dragonfly_operator.Effects.Calls.{
  Call, Env, Instance, ◌>>=◌, proceed, patch_pod, delete_pod, patch_dragonfly_status, slave_of,
  config_set, repl_takeover, client_kill,
}
use dragonfly_operator.Effects.Within.{
  Within, Within-bind, Within-bind_of, Within-if, Within-pure, Within-rewrapping, footprint,
  PermitsAsking,
}
use dragonfly_operator.Instance.Rollout.{
  Requeue, sort_by_name, has_terminating, find_outdated, delete_outdated_replica, replace_one,
  update_replicas,
}
use dragonfly_operator.Instance.Rollout.Sorting.{has_outdated-sort_by_name}
use dragonfly_operator.Instance.Rollout.Replacement.{find_outdated_some}
use dragonfly_operator.Instance.Rollout.Deletions.{find_outdated_lem}
use dragonfly_operator.Instance.Footprint.{get_master-Within, Within-or_wait}
use dragonfly_operator.Instance.Footprint.Changes.{PermitsGating, verify_updated_replicas-Within}
use dragonfly_operator.Reconcile.Rollout.{after_update, update_step}

-- Calls that leave roles, snapshots, clients and the status alone, and delete no pod but an outdated
-- one.
abbrev pub prepares : String → Call → Bool
prepares revision (patch_pod before after) = false
prepares revision (patch_dragonfly_status before after) = false
prepares revision (slave_of ip host port) = false
prepares revision (config_set ip key value) = false
prepares revision (repl_takeover ip timeout) = false
prepares revision (client_kill ip addr) = false
prepares revision (delete_pod pod) = not (is_pod_on_latest_version pod revision)
prepares revision _ = true

module _ (env : Env) (is_ipv4 : String → Bool) (revision : String) where
  prepares-PermitsAsking : PermitsAsking (prepares revision)
  prepares-PermitsAsking call e = ground arith

  prepares-PermitsGating : PermitsGating (prepares revision)
  prepares-PermitsGating before after = refl

  delete_outdated_replica-Within :
      (sorted : List Pod) (found : Option Pod)
      → ((pod : Pod) → found ≡ some pod → is_pod_on_latest_version pod revision ≡ false)
      → Within (prepares revision) (delete_outdated_replica env is_ipv4 sorted found)
  delete_outdated_replica-Within sorted none h = search footprint
  delete_outdated_replica-Within sorted (some pod) h =
      search (footprint, ap not (h pod refl)) depth 7

  replace_one-Within :
      (sorted : List Pod) → Within (prepares revision) (replace_one env is_ipv4 sorted revision)
  unfolding replace_one
  replace_one-Within sorted =
      Within-if (has_terminating sorted) (λ _. Within-pure (5, sorted))
        (λ _.
          delete_outdated_replica-Within sorted (find_outdated sorted revision)
            (find_outdated_lem revision env is_ipv4 sorted))

  -- While a replica is outdated the next one is still to go, or to terminate.
  replace_one_waits :
      (sorted : List Pod) (s : Instance) (q : Requeue) (l : List Pod)
      → find_outdated sorted revision ≢ none
      → (replace_one env is_ipv4 sorted revision s).0 ≡ ok (q, l)
      → q ≡ 5
  unfolding replace_one ◌>>=◌
  replace_one_waits sorted s q l h e = ground arith

  update_replicas-Within :
      (replicas : List Pod)
      → Within (prepares revision) (update_replicas env is_ipv4 replicas revision)
  unfolding update_replicas
  update_replicas-Within replicas =
      Within-bind (Within-rewrapping _ (get_master-Within prepares-PermitsAsking env))
        (λ _. replace_one-Within (sort_by_name replicas))

  replaced_waits :
      (replicas : List Pod) (r : Result Pod) (s : Instance) (q : Requeue) (l : List Pod)
      → has_outdated replicas revision ≡ true
      → (proceed r (λ current. replace_one env is_ipv4 (sort_by_name replicas) revision) s).0
        ≡ ok (q, l)
      → q ≡ 5
  replaced_waits replicas (err e) s q l h a = cc
  replaced_waits replicas (ok current) s q l h a =
      replace_one_waits (sort_by_name replicas) s q l
        (find_outdated_some (sort_by_name replicas) revision
          (has_outdated-sort_by_name replicas revision ∙ h))
        a

  pub update_replicas_waits :
      (replicas : List Pod) (s : Instance) (q : Requeue) (l : List Pod)
      → has_outdated replicas revision ≡ true
      → (update_replicas env is_ipv4 replicas revision s).0 ≡ ok (q, l)
      → q ≡ 5
  unfolding update_replicas ◌>>=◌
  update_replicas_waits replicas s q l h e = replaced_waits replicas _ _ q l h e

  -- While one of the replicas is not on the update revision, a step makes no pod a master or a replica,
  -- takes no master over, leaves the status of the instance alone, and deletes no pod but an outdated
  -- one.
  pub update_step-prepares :
      (status : DragonflyStatus) (replicas : List Pod)
      → has_outdated replicas revision ≡ true
      → Within (prepares revision) (update_step env is_ipv4 status revision replicas)
  unfolding update_step after_update
  update_step-prepares status replicas h =
      Within-or_wait
        (verify_updated_replicas-Within prepares-PermitsAsking prepares-PermitsGating env is_ipv4
          replicas revision)
        (Within-bind_of (update_replicas-Within replicas)
          (λ (q, l) s e. rw (update_replicas_waits replicas s q l h e) (Within-pure 5)))
