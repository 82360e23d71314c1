-- ===== src/Resources/Selector.antt =====
-- The selector of the generated stateful set and the labels of its pods
-- (internal/resources/resources.go).
use dragonfly_operator.Prelude.{◌≡◌, refl, String, none, some, List, All}
use dragonfly_operator.Prelude.Dict.{lookup}
use dragonfly_operator.Kube.{Dragonfly}
use dragonfly_operator.Kube.Objects.{
  Object, ObjectMeta, stateful_set, service, disruption_budget, config,
}
use dragonfly_operator.Effects.Errors.{ok}
use dragonfly_operator.Resources.{check_spec, selector_labels, template_labels}
use dragonfly_operator.Resources.Safety.{template_labels-instance_labels}
use dragonfly_operator.Resources.Draft.{Draft, items}
use dragonfly_operator.Resources.Storage.{set_template_metadata, add_tls}
use dragonfly_operator.Resources.Probes.{Scripts, generated_meta, generate_probe_config_map}
use dragonfly_operator.Resources.Service.{generate_service, generate_budget}
use dragonfly_operator.Resources.Generate.{
  initial_draft, finish, after_snapshot, all_objects, generate_dragonfly_resources,
}
use dragonfly_operator.Resources.Outcome.{All-all_objects, generate_dragonfly_resources-FromDraft}
use dragonfly_operator.Resources.Kept.{Kept}
use dragonfly_operator.Resources.Kept.Steps.{
  keeps-add_features, keeps-add_snapshot, keeps-metadata, keeps-placement,
}

abbrev Selects : Dragonfly → Draft → Type 0
Selects df draft = draft.spec.selector ≡ some (selector_labels df)

Selects-Kept : (df : Dragonfly) → Kept df (Selects df)
unfolding set_template_metadata
Selects-Kept df = record {
  main = λ draft main e h. h;
  pod = λ draft pod e h. h;
  policy = λ draft policy h. h;
  metadata = λ draft h. h;
  volume = λ draft mount volume e h. h;
  claim = λ draft mount template e h. h;
}

abbrev IsLabelled : Dragonfly → Draft → Type 0
IsLabelled df draft = draft.spec.template_labels ≡ some (template_labels df)

IsLabelled-Kept : (df : Dragonfly) → Kept df (IsLabelled df)
unfolding set_template_metadata
IsLabelled-Kept df = record {
  main = λ draft main e h. h;
  pod = λ draft pod e h. h;
  policy = λ draft policy h. h;
  metadata = λ draft h. refl;
  volume = λ draft mount volume e h. h;
  claim = λ draft mount template e h. h;
}

pub after_snapshot-template_labels :
    (df : Dragonfly) (draft : Draft)
    → (after_snapshot df draft).template_labels ≡ some (template_labels df)
unfolding after_snapshot finish set_template_metadata
after_snapshot-template_labels df draft =
    keeps-placement df (IsLabelled df) (IsLabelled-Kept df)
      (set_template_metadata df (add_tls df.spec draft)) refl

-- The pods of the stateful set have every label of its selector.
abbrev pub SelectsItsPods : Object → Type 0
SelectsItsPods (stateful_set meta spec) =
    All (λ (label : String × String). lookup label.0 (items spec.template_labels) ≡ some label.1)
      (items spec.selector)
SelectsItsPods (service meta spec) = Unit
SelectsItsPods (disruption_budget meta spec) = Unit
SelectsItsPods (config meta entries binary_data) = Unit

module _ (df : Dragonfly) (checked : check_spec df.spec ≡ none) (draft : Draft)
    (h : Selects df draft) where
  after_snapshot-SelectsItsPods :
      (meta : ObjectMeta) → SelectsItsPods (stateful_set meta (after_snapshot df draft))
  unfolding after_snapshot finish set_template_metadata
  after_snapshot-SelectsItsPods meta =
      let ready = set_template_metadata df (add_tls df.spec draft) in
      let selects =
        keeps-placement df (Selects df) (Selects-Kept df) ready
          (keeps-metadata df (Selects df) (Selects-Kept df) draft h) in
      rw (selects, after_snapshot-template_labels df draft)
        (template_labels-instance_labels df checked)

  all_objects-SelectsItsPods :
      (scripts : Scripts) → All SelectsItsPods (all_objects scripts df draft)
  unfolding generate_service generate_budget generate_probe_config_map
  all_objects-SelectsItsPods scripts =
      All-all_objects SelectsItsPods df (λ name key script. tt) scripts draft
        (after_snapshot-SelectsItsPods (generated_meta df df.name)) tt tt

initial_draft-Selects : (df : Dragonfly) (image : String) → Selects df (initial_draft df image)
unfolding initial_draft
initial_draft-Selects df image = refl

-- The pods of a generated stateful set have every label of its selector, whatever labels the spec asks
-- for.
pub generate_dragonfly_resources-SelectsItsPods :
    (scripts : Scripts) (df : Dragonfly) (image : String) (objects : List Object)
    → generate_dragonfly_resources scripts df image ≡ ok objects
    → All SelectsItsPods objects
generate_dragonfly_resources-SelectsItsPods scripts df image objects e =
    let found = generate_dragonfly_resources-FromDraft scripts df image objects e in
    let kept = Selects-Kept df in
    let featured = keeps-add_features df (Selects df) kept _ (initial_draft-Selects df image) in
    let stored = keeps-add_snapshot df (Selects df) kept _ found.draft featured found.stored in
    rw (found.all) (all_objects-SelectsItsPods df found.checked found.draft stored scripts)
