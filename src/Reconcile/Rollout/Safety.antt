-- ===== src/Reconcile/Rollout/Safety.antt =====
-- Which pods one step of a rolling update deletes (`DragonflyReconciler.Reconcile`).
use dragonfly_operator.Prelude.{String, Bool, List, ◌≡◌, refl, Bool-cases, inl, inr}
use dragonfly_operator.Kube.{Pod, StatefulSet, DragonflyStatus}
use dragonfly_operator.Pods.{is_pod_on_latest_version}
use dragonfly_operator.Effects.Errors.{Result, ok, err}
use dragonfly_operator.Effects.Calls.{Env, Instance, ◌>>=◌}
use dragonfly_operator.Effects.Within.{
  Within, Within-bind, Within-pure, Within-weaken, Within-rewrapping, footprint,
  no_delete-PermitsAsking, Grows, grown, more, Grows-trans,
}
use dragonfly_operator.Instance.Rollout.{Requeue}
use dragonfly_operator.Instance.Rollout.Deletions.{
  deletes_outdated, deletes_outdated-PermitsChanging, deletes_outdated-PermitsAsking,
  all_pods_healthy_and_have_role-Within, update_replicas-Within, updated_master-Within,
  detect_old_masters-Within,
}
use dragonfly_operator.Instance.Footprint.{get_replicas-Within, get_master-Within, Within-or_wait}
use dragonfly_operator.Instance.Footprint.Changes.{
  no_delete-PermitsGating, patch_status-Within, verify_updated_replicas-Within,
}
use dragonfly_operator.Reconcile.Rollout.{
  complete_rollout, roll_found, roll_master, after_update, update_step, roll_replicas, roll_out,
}

module _ (env : Env) (is_ipv4 : String → Bool) (status : DragonflyStatus) (revision : String) where
  complete_rollout-Within : Within (deletes_outdated revision) (complete_rollout env is_ipv4 status)
  unfolding complete_rollout
  complete_rollout-Within =
      Within-weaken (deletes_outdated-PermitsChanging revision)
        (search (footprint, patch_status-Within) depth 7)

  roll_found-Within :
      (replicas : List Pod) (found : Result Pod)
      → Within (deletes_outdated revision) (roll_found env is_ipv4 status replicas revision found)
  roll_found-Within replicas (err e) = search footprint
  roll_found-Within replicas (ok master) =
      elim (Bool-cases (is_pod_on_latest_version master revision)) [
        | inl e ↦ rw e (search (footprint, detect_old_masters-Within, complete_rollout-Within))
        | inr e ↦ rw e (
            Within-bind
              (Within-rewrapping _ (updated_master-Within revision env is_ipv4 master replicas e))
              (λ _. Within-pure 5))
      ]

  roll_master-Within :
      (replicas : List Pod)
      → Within (deletes_outdated revision) (roll_master env is_ipv4 status replicas revision)
  unfolding roll_master
  roll_master-Within replicas =
      search (footprint, deletes_outdated-PermitsAsking, get_master-Within, roll_found-Within)

  after_update-Within :
      (updated : Requeue × List Pod)
      → Within (deletes_outdated revision) (after_update env is_ipv4 status revision updated)
  unfolding after_update
  after_update-Within (requeue, sorted) = search (footprint, roll_master-Within)

  update_step-Within :
      (replicas : List Pod)
      → Within (deletes_outdated revision) (update_step env is_ipv4 status revision replicas)
  unfolding update_step
  update_step-Within replicas =
      Within-or_wait
        (Within-weaken (deletes_outdated-PermitsChanging revision) (
          verify_updated_replicas-Within no_delete-PermitsAsking no_delete-PermitsGating env is_ipv4
            replicas revision))
        (Within-bind (update_replicas-Within revision env is_ipv4 replicas) after_update-Within)

  pub roll_replicas-Within :
      Within (deletes_outdated revision) (roll_replicas env is_ipv4 status revision)
  unfolding roll_replicas
  roll_replicas-Within =
      search (footprint, deletes_outdated-PermitsAsking, get_replicas-Within, update_step-Within)
        depth 8

module _ (env : Env) (is_ipv4 : String → Bool) (status : DragonflyStatus) (s : Instance) where
  -- One step of a rolling update deletes only pods that are not on the update revision which the
  -- stateful set had at the beginning of the step.
  pub roll_out-deletes_outdated :
      (sts : StatefulSet)
      → env.get_stateful_set s.calls s.df.namespace s.df.name ≡ ok sts
      → Grows (deletes_outdated sts.update_revision) s.calls (roll_out env is_ipv4 status s).1.calls
  unfolding roll_out ◌>>=◌
  roll_out-deletes_outdated sts e = rw e (
      Grows-trans (more _ refl grown)
        ((Within-or_wait (all_pods_healthy_and_have_role-Within sts.update_revision env is_ipv4)
            (roll_replicas-Within env is_ipv4 status sts.update_revision)).at
          _).grows)
