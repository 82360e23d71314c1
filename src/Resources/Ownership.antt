-- ===== src/Resources/Ownership.antt =====
-- The objects that `GenerateDragonflyResources` makes (internal/resources/resources.go): their owner and
-- labels, and the disruption budget.
use dragonfly_operator.Prelude.{
  ◌≡◌, refl, ◌∙◌, String, Bool, true, false, ◌||◌, none, List, [], ◌∷◌, ◌++◌, arith, All,
  Bool-cases, inl, inr,
}
use dragonfly_operator.Prelude.Dict.{lookup}
use dragonfly_operator.Prelude.Int.{pos, ltb_ℤ}
use dragonfly_operator.Kube.{Dragonfly}
use dragonfly_operator.Kube.Objects.{
  Object, stateful_set, service, disruption_budget, config, meta_of,
}
use dragonfly_operator.Effects.Errors.{ok}
use dragonfly_operator.Resources.{is_managed, check_spec, resource_labels}
use dragonfly_operator.Resources.Safety.{check_spec-keeps_managed}
use dragonfly_operator.Resources.Draft.{Draft, items}
use dragonfly_operator.Resources.Probes.{
  Scripts, owners, generated_meta, generate_probe_config_map, probe_config_maps,
}
use dragonfly_operator.Resources.Service.{generate_service, generate_budget, budgets}
use dragonfly_operator.Resources.Generate.{all_objects, generate_dragonfly_resources}
use dragonfly_operator.Resources.Outcome.{
  All-all_objects, All-probe_config_maps, generate_dragonfly_resources-FromDraft,
}

-- The object is in the namespace of the instance and owned by it, and has the operator's own labels
-- under the keys that the operator manages.
pub record IsOwned (df : Dragonfly) (object : Object) : Type 0 where
  pub namespace : (meta_of object).namespace ≡ df.namespace
  pub owner : (meta_of object).owners ≡ owners df
  pub labels :
      (key : String)
      → is_managed key ≡ true
      → lookup key (items (meta_of object).labels) ≡ lookup key (resource_labels df)

module _ (df : Dragonfly) (checked : check_spec df.spec ≡ none) where
  generated_meta-IsOwned :
      (object : Object) (name : String)
      → meta_of object ≡ generated_meta df name
      → IsOwned df object
  unfolding generated_meta
  generated_meta-IsOwned object name e = record {
    namespace = rw e refl;
    owner = rw e refl;
    labels = λ key m. rw e (check_spec-keeps_managed df key checked m).0;
  }

  generate_service-IsOwned : IsOwned df (generate_service df)
  unfolding generate_service
  generate_service-IsOwned = record {
    namespace = refl;
    owner = refl;
    labels = λ key m. (check_spec-keeps_managed df key checked m).1;
  }

  all_objects-IsOwned :
      (scripts : Scripts) (draft : Draft) → All (IsOwned df) (all_objects scripts df draft)
  unfolding generate_budget generate_probe_config_map
  all_objects-IsOwned scripts draft =
      All-all_objects (IsOwned df) df (λ name key script. generated_meta-IsOwned _ name refl)
        scripts draft (generated_meta-IsOwned _ df.name refl) generate_service-IsOwned
        (generated_meta-IsOwned _ df.name refl)

abbrev pub is_budget : Object → Bool
is_budget (disruption_budget meta spec) = true
is_budget (stateful_set meta spec) = false
is_budget (service meta spec) = false
is_budget (config meta entries binary_data) = false

unfoldable pub has_budget : List Object → Bool
has_budget [] = false
has_budget (object ∷ objects) = is_budget object || has_budget objects

has_budget-append : (xs ys : List Object) → has_budget (xs ++ ys) ≡ (has_budget xs || has_budget ys)
unfolding has_budget
has_budget-append [] ys = refl
has_budget-append (x ∷ xs) ys = ground (arith, has_budget-append xs ys)

has_budget-none :
    (objects : List Object)
    → All (λ object. is_budget object ≡ false) objects
    → has_budget objects ≡ false
unfolding has_budget
has_budget-none [] h = refl
has_budget-none (object ∷ objects) h = rw (h.0, has_budget-none objects h.1) refl

config-is_budget :
    (df : Dragonfly) (name key script : String)
    → is_budget (generate_probe_config_map df name key script) ≡ false
unfolding generate_probe_config_map
config-is_budget df name key script = refl

budgets-has_budget : (df : Dragonfly) → has_budget (budgets df) ≡ ltb_ℤ (pos 1) df.spec.replicas
unfolding has_budget budgets generate_budget
budgets-has_budget df = elim (Bool-cases (ltb_ℤ (pos 1) df.spec.replicas)) [
  | inl e ↦ rw e refl
  | inr e ↦ rw e refl
]

service-is_budget : (df : Dragonfly) → is_budget (generate_service df) ≡ false
unfolding generate_service
service-is_budget df = refl

all_objects-has_budget :
    (scripts : Scripts) (df : Dragonfly) (draft : Draft)
    → has_budget (all_objects scripts df draft) ≡ ltb_ℤ (pos 1) df.spec.replicas
unfolding has_budget
all_objects-has_budget scripts df draft =
    let configs =
      All-probe_config_maps (λ object. is_budget object ≡ false) df (config-is_budget df) scripts in
    has_budget-append (probe_config_maps scripts df) _
    ∙ rw (has_budget-none (probe_config_maps scripts df) configs, service-is_budget df)
        (budgets-has_budget df)

-- Every object that is generated is in the namespace of the instance and owned by it, and has the
-- operator's own value under each label key that the operator manages. A disruption budget is among
-- them exactly for an instance with more than one replica.
pub generate_dragonfly_resources-IsOwned :
    (scripts : Scripts) (df : Dragonfly) (image : String) (objects : List Object)
    → generate_dragonfly_resources scripts df image ≡ ok objects
    → All (IsOwned df) objects × (has_budget objects ≡ ltb_ℤ (pos 1) df.spec.replicas)
generate_dragonfly_resources-IsOwned scripts df image objects e =
    let found = generate_dragonfly_resources-FromDraft scripts df image objects e in
    rw (found.all) (
      all_objects-IsOwned df found.checked scripts found.draft,
      all_objects-has_budget scripts df found.draft,
    )
