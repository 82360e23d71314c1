-- ===== src/Reconcile/Base.antt =====
-- `getDragonflyInstance` (internal/controller/base_controller.go) with the deferred `Close`.
pub mod Clients
use dragonfly_operator.Prelude.{String, [], ◌∷◌}
use dragonfly_operator.Kube.{Dragonfly}
use dragonfly_operator.Effects.Errors.{Result, ok, err, wrap, ignore_not_found}
use dragonfly_operator.Effects.Calls.{Env, M, History, get_dragonfly}
use dragonfly_operator.Effects.Actions.{close}
use dragonfly_operator.Instance.Rollout.{Requeue}

-- An instance that is not found is no error. The clients are closed on every way out.
unfoldable pub enter : M Requeue → History → Result Dragonfly → Result Requeue × History
unfolding close ignore_not_found
enter body calls (err e) = (ignore_not_found 0 (wrap "failed to get dragonfly instance" e), calls)
enter body calls (ok df) =
    let (r, s) = body (record { df = df; clients = []; calls = calls }) in (r, (close s).calls)

unfoldable pub with_instance :
    Env → String → String → M Requeue → History → Result Requeue × History
unfolding enter
with_instance env namespace name body calls =
    enter body (get_dragonfly namespace name ∷ calls) (env.get_dragonfly calls namespace name)
