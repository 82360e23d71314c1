-- ===== src/Reconcile/Dragonfly.antt =====
-- `DragonflyReconciler.Reconcile` (internal/controller/dragonfly_controller.go) as a whole.
pub mod Clients
use dragonfly_operator.Prelude.{ℕ, String, Bool, Option, none, some}
use dragonfly_operator.Effects.Errors.{Result}
use dragonfly_operator.Effects.Calls.{Env, M, History, ◌>>=◌, ◌>>◌, pure, wrapping}
use dragonfly_operator.Effects.Actions.{get_df}
use dragonfly_operator.Instance.Rollout.{Requeue}
use dragonfly_operator.Instance.Resources.{Setup, reconcile_resources}
use dragonfly_operator.Reconcile.Base.{with_instance}
use dragonfly_operator.Reconcile.Rollout.{reconcile_status}

module _ (env : Env) (is_ipv4 : String → Bool) (setup : Setup) where
  -- `isTerminating` of the instance: it has a deletion timestamp.
  abbrev pub unless_terminating : Option ℕ → M Requeue → M Requeue
  unless_terminating none body = body
  unless_terminating (some time) body = pure 0

  unfoldable pub reconcile_instance : M Requeue
  unfolding reconcile_resources reconcile_status
  reconcile_instance = do
    df ← get_df
    unless_terminating df.deletion_timestamp (
        wrapping "failed to reconcile dragonfly resources" (reconcile_resources env setup)
        >> reconcile_status env is_ipv4)

  unfoldable pub reconcile_dragonfly : String → String → History → Result Requeue × History
  unfolding with_instance reconcile_instance
  reconcile_dragonfly namespace name = with_instance env namespace name reconcile_instance
