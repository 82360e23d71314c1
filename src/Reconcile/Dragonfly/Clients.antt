-- ===== src/Reconcile/Dragonfly/Clients.antt =====
-- The open Redis clients and the errors of `DragonflyReconciler.Reconcile`
-- (internal/controller/dragonfly_controller.go).
use dragonfly_operator.Prelude.{refl, ℕ, String, Bool, true, Option, none, some, List}
use dragonfly_operator.Kube.{DragonflyStatus}
use dragonfly_operator.Kube.Objects.{Object}
use dragonfly_operator.Effects.Calls.{Call, Env, M, History}
use dragonfly_operator.Effects.Within.{
  Within, Within-bind, Within-gets, Within-weaken, Within-rewrapping, footprint, PermitsAsking,
}
use dragonfly_operator.Instance.Rollout.{Requeue}
use dragonfly_operator.Instance.Rollout.Deletions.{all_pods_healthy_and_have_role-Within}
use dragonfly_operator.Instance.Status.{detect_rolling_update}
use dragonfly_operator.Instance.Footprint.{get_stateful_set-Within, Within-or_wait}
use dragonfly_operator.Instance.Footprint.Changes.{detect_rolling_update-Within}
use dragonfly_operator.Instance.Resources.{Setup}
use dragonfly_operator.Instance.Resources.Footprint.{PermitsObjects, reconcile_resources-Within}
use dragonfly_operator.Reconcile.Base.Clients.{NoneOpen, with_instance-NoneOpen}
use dragonfly_operator.Reconcile.Rollout.{roll_out, current_status, reconcile_status}
use dragonfly_operator.Reconcile.Rollout.Safety.{roll_replicas-Within}
use dragonfly_operator.Reconcile.Dragonfly.{
  unless_terminating, reconcile_instance, reconcile_dragonfly,
}

abbrev any_call : Call → Bool
any_call call = true

any_call-PermitsAsking : PermitsAsking any_call
any_call-PermitsAsking call e = refl

any_call-PermitsObjects :
    (setup : Setup) (objects : List Object) → PermitsObjects any_call setup objects
any_call-PermitsObjects setup objects = record {
  quiet = λ call e. refl;
  creates = λ df desired owned m e. refl;
  patches = λ desired existing. refl;
  patches_status = λ before after. refl;
}

module _ (env : Env) (is_ipv4 : String → Bool) (setup : Setup) where
  roll_out-Within : (status : DragonflyStatus) → Within any_call (roll_out env is_ipv4 status)
  unfolding roll_out
  roll_out-Within status =
      Within-bind (Within-rewrapping _ (get_stateful_set-Within any_call-PermitsAsking env)) (λ sts.
        Within-or_wait
          (Within-weaken (λ call e. refl)
            (all_pods_healthy_and_have_role-Within sts.update_revision env is_ipv4))
          (Within-weaken (λ call e. refl)
            (roll_replicas-Within env is_ipv4 status sts.update_revision)))

  detected : Within any_call (detect_rolling_update env)
  detected = Within-weaken (λ call e. refl) (detect_rolling_update-Within env is_ipv4)

  current_status-Within : Within any_call (current_status env is_ipv4)
  unfolding current_status
  current_status-Within = search (footprint, detected)

  reconcile_status-Within : Within any_call (reconcile_status env is_ipv4)
  unfolding reconcile_status
  reconcile_status-Within = search (footprint, current_status-Within, roll_out-Within)

  unless_terminating-Within :
      (time : Option ℕ) (body : M Requeue)
      → Within any_call body
      → Within any_call (unless_terminating env is_ipv4 setup time body)
  unless_terminating-Within none body h = h
  unless_terminating-Within (some time) body h = search footprint

  reconcile_instance-Within : Within any_call (reconcile_instance env is_ipv4 setup)
  unfolding reconcile_instance
  reconcile_instance-Within =
      let resources = reconcile_resources-Within env setup (any_call-PermitsObjects setup) in
      Within-bind (Within-gets _) (λ df.
        unless_terminating-Within df.deletion_timestamp _
          (Within-bind (Within-rewrapping _ resources) (λ _. reconcile_status-Within)))

  -- The Dragonfly controller leaves no Redis client open, however its reconciliation ends.
  pub reconcile_dragonfly-NoneOpen :
      (namespace name : String) (calls : History)
      → NoneOpen calls
      → NoneOpen (reconcile_dragonfly env is_ipv4 setup namespace name calls).1
  unfolding reconcile_dragonfly
  reconcile_dragonfly-NoneOpen namespace name calls h =
      with_instance-NoneOpen _ reconcile_instance-Within env namespace name calls h
