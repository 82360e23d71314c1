-- ===== src/Instance/Resources.antt =====
-- `reconcileResources` (internal/controller/dragonfly_instance.go).
pub mod Footprint
pub mod Store
pub mod Applied
pub mod Keys
pub mod Refinement
pub mod Quiet
pub mod Idle
use dragonfly_operator.Prelude.{String, Bool, true, false, not, ◌==◌, List, [], ◌∷◌, if◌then◌else◌}
use dragonfly_operator.Prelude.Int.{pos, ltb_ℤ}
use dragonfly_operator.Text.{is_empty}
use dragonfly_operator.Kube.{Dragonfly}
use dragonfly_operator.Kube.Objects.{Object, stateful_set, meta_of}
use dragonfly_operator.Effects.Errors.{Result, ok, err, errorf, wrap, is_not_found}
use dragonfly_operator.Effects.Calls.{
  Env, M, ◌>>=◌, ◌>>◌, pure, fail, attempt, rewrapping, wrapping,
}
use dragonfly_operator.Effects.Actions.{
  get_df, do_event, do_get_object, do_create_object, do_patch_object, do_delete_budget,
}
use dragonfly_operator.Resources.Draft.{items}
use dragonfly_operator.Resources.Probes.{Scripts}
use dragonfly_operator.Resources.Generate.{generate_dragonfly_resources}
use dragonfly_operator.Instance.Status.{get_status, patch_status, phase_resources_created}
use dragonfly_operator.Instance.Objects.{
  pod_management_policy_or_default, volume_claim_templates_equal, preserve_immutable,
  resource_specs_equal, patched, kind_of,
}

-- What the operator is built and started with: the texts of the scripts and the default image; and
-- `controllerutil.SetControllerReference`, a function of controller-runtime.
pub record Setup : Type 0 where
  pub scripts : Scripts
  pub default_image : String
  pub set_controller_reference : Dragonfly → Object → Result Object

abbrev pub event_if : Bool → String → M (Unit {0})
event_if true message = do_event "ImmutableField" message
event_if false message = pure tt

-- The warnings on changes of a stateful set that cannot be applied.
unfoldable pub warn_immutable : Object → Object → M (Unit {0})
unfolding volume_claim_templates_equal pod_management_policy_or_default
warn_immutable (stateful_set m desired) (stateful_set n existing) = do
  event_if
      (not (
        volume_claim_templates_equal (items desired.volume_claim_templates)
          (items existing.volume_claim_templates)))
      "VolumeClaimTemplates change ignored: delete and recreate the Dragonfly instance to apply PVC configuration changes"
  event_if
      (not (
        pod_management_policy_or_default desired.pod_management_policy
        == pod_management_policy_or_default existing.pod_management_policy))
      "PodManagementPolicy change ignored: delete and recreate the Dragonfly instance to apply it"
warn_immutable desired existing = pure tt

-- `SetControllerReference`, whose error ends the method.
abbrev pub referenced : Result Object → M Object
referenced (ok object) = pure object
referenced (err e) = fail (wrap "failed to set controller reference" e)

module _ (env : Env) (setup : Setup) where
  unfoldable pub create_resource : Dragonfly → Object → M (Unit {0})
  create_resource df desired = do
    owned ← referenced (setup.set_controller_reference df desired)
    wrapping "failed to create resource" (do_create_object env owned)

  unfoldable pub update_resource : Dragonfly → Object → Object → M (Unit {0})
  unfolding preserve_immutable warn_immutable resource_specs_equal patched
  update_resource df desired existing = do
    owned ← referenced (setup.set_controller_reference df desired)
    warn_immutable owned existing
    let target = preserve_immutable owned existing
    if resource_specs_equal target existing
        then pure tt
        else wrapping "failed to patch resource"
            (do_patch_object env existing (patched target existing))

  abbrev pub reconcile_found : Dragonfly → Object → Result Object → M (Unit {0})
  reconcile_found df desired (ok existing) = update_resource df desired existing
  reconcile_found df desired (err e) =
      if is_not_found e then create_resource df desired else fail (wrap "failed to get resource" e)

  -- A round of the loop over the objects.
  unfoldable pub reconcile_resource : Object → M (Unit {0})
  unfolding create_resource update_resource is_not_found
  reconcile_resource desired = do
    df ← get_df
    found ←
        attempt
          (do_get_object env (kind_of desired) (meta_of desired).namespace (meta_of desired).name)
    reconcile_found df desired found

  unfoldable pub reconcile_each : List Object → M (Unit {0})
  unfolding reconcile_resource
  reconcile_each [] = pure tt
  reconcile_each (desired ∷ objects) = reconcile_resource desired >> reconcile_each objects

  abbrev pub unless_missing : Result (Unit {0}) → M (Unit {0})
  unless_missing (ok done) = pure tt
  unless_missing (err e) =
      if is_not_found e then pure tt else fail (wrap "failed to delete pod disruption budget" e)

  -- An instance with less than two replicas has no disruption budget.
  unfoldable pub delete_spare_budget : M (Unit {0})
  unfolding is_not_found
  delete_spare_budget = do
    df ← get_df
    if ltb_ℤ df.spec.replicas (pos 2)
        then attempt (do_delete_budget env df.namespace df.name) >>= unless_missing
        else pure tt

  unfoldable pub record_created : M (Unit {0})
  unfolding patch_status
  record_created = do
    status ← get_status
    if is_empty status.phase
        then (do
          rewrapping (λ e. errorf "failed to update the dragonfly object")
              (patch_status env (record status { phase = phase_resources_created }))
          do_event "Resources" "Created resources")
        else pure tt

  abbrev pub generated : Result (List Object) → M (List Object)
  generated (ok objects) = pure objects
  generated (err e) = fail (wrap "failed to generate dragonfly resources" e)

  unfoldable pub reconcile_resources : M (Unit {0})
  unfolding generate_dragonfly_resources reconcile_each delete_spare_budget record_created
  reconcile_resources = do
    df ← get_df
    objects ← generated (generate_dragonfly_resources setup.scripts df setup.default_image)
    reconcile_each objects
    delete_spare_budget
    record_created
