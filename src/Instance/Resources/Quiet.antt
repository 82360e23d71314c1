-- ===== src/Instance/Resources/Quiet.antt =====
-- The calls of `reconcileResources` that create and patch nothing
-- (internal/controller/dragonfly_instance.go).
use dragonfly_operator.Prelude.{◌≡◌, String, Bool, true, false, List}
use dragonfly_operator.Kube.{Dragonfly}
use dragonfly_operator.Kube.Objects.{Object, stateful_set, service, disruption_budget, config}
use dragonfly_operator.Effects.Errors.{Result, ok, err}
use dragonfly_operator.Effects.Calls.{Call, Env, record_event, delete_budget}
use dragonfly_operator.Effects.Within.{
  Within, Within-bind, Within-bind_of, Within-pure, footprint, only_asks,
}
use dragonfly_operator.Effects.Outcome.{pure_ok}
use dragonfly_operator.Instance.Objects.{preserve_immutable, resource_specs_equal}
use dragonfly_operator.Instance.Resources.{
  Setup, event_if, warn_immutable, referenced, update_resource, unless_missing, delete_spare_budget,
  generated,
}

-- A call that asks, records an event, or deletes the disruption budget.
unfoldable pub is_quiet : Call → Bool
is_quiet (record_event reason message) = true
is_quiet (delete_budget namespace name) = true
is_quiet call = only_asks call

pub event_if-Within : (b : Bool) (message : String) → Within is_quiet (event_if b message)
unfolding is_quiet
event_if-Within true message = search footprint
event_if-Within false message = search footprint

pub warn_immutable-Within :
    (desired existing : Object) → Within is_quiet (warn_immutable desired existing)
unfolding warn_immutable
warn_immutable-Within (stateful_set m a) (stateful_set n b) =
    Within-bind (event_if-Within _ _) (λ _. event_if-Within _ _)
warn_immutable-Within (stateful_set m a) (service n b) = search footprint
warn_immutable-Within (stateful_set m a) (disruption_budget n b) = search footprint
warn_immutable-Within (stateful_set m a) (config n b d) = search footprint
warn_immutable-Within (service m a) existing = search footprint
warn_immutable-Within (disruption_budget m a) existing = search footprint
warn_immutable-Within (config m a c) existing = search footprint

pub referenced-Within : (r : Result Object) → Within is_quiet (referenced r)
referenced-Within (ok object) = search footprint
referenced-Within (err e) = search footprint

module _ (env : Env) (setup : Setup) where
  unless_missing-Within : (r : Result (Unit {0})) → Within is_quiet (unless_missing env setup r)
  unless_missing-Within (ok done) = search footprint
  unless_missing-Within (err e) = search footprint

  pub delete_spare_budget-Within : Within is_quiet (delete_spare_budget env setup)
  unfolding delete_spare_budget is_quiet
  delete_spare_budget-Within = search (footprint, unless_missing-Within)

  pub generated-Within : (r : Result (List Object)) → Within is_quiet (generated env setup r)
  generated-Within (ok objects) = search footprint
  generated-Within (err e) = search footprint

  -- An object with no change is not patched.
  pub update_resource-Within :
      (df : Dragonfly) (desired existing owned : Object)
      → setup.set_controller_reference df desired ≡ ok owned
      → resource_specs_equal (preserve_immutable owned existing) existing ≡ true
      → Within is_quiet (update_resource env setup df desired existing)
  unfolding update_resource
  update_resource-Within df desired existing owned refer same = rw refer (
      Within-bind_of (Within-pure owned) (λ a s e.
        rw (← (pure_ok owned a s e))
          (Within-bind (warn_immutable-Within owned existing) (λ _. rw same (Within-pure tt)))))
