-- ===== src/Resources/Status.antt =====
-- Nothing that is generated depends on the status of the instance (internal/resources/resources.go).
use dragonfly_operator.Prelude.{◌≡◌, refl, ap, ◌∙◌, String, Option, none, some}
use dragonfly_operator.Kube.{Dragonfly, DragonflyStatus}
use dragonfly_operator.Effects.Errors.{Result, ok, err}
use dragonfly_operator.Resources.{check_spec, LabelError}
use dragonfly_operator.Resources.Draft.{Draft}
use dragonfly_operator.Resources.Features.{tiering_claim, add_tiering, add_features}
use dragonfly_operator.Resources.Storage.{add_snapshot, set_template_metadata}
use dragonfly_operator.Resources.Probes.{Scripts, generated_meta, set_probes, probe_config_maps}
use dragonfly_operator.Resources.Service.{generate_service, generate_budget, budgets}
use dragonfly_operator.Resources.Generate.{
  initial_draft, finish, after_snapshot, answer, all_objects, generate_dragonfly_resources,
}

module _ (df : Dragonfly) (status : DragonflyStatus) where
  -- The instance with another status.
  abbrev other : Dragonfly
  other = record df { status = status }

  initial_draft-status : (image : String) → initial_draft other image ≡ initial_draft df image
  unfolding initial_draft
  initial_draft-status image = refl

  add_tiering-status : (draft : Draft) → add_tiering other draft ≡ add_tiering df draft
  unfolding add_tiering tiering_claim
  add_tiering-status draft = refl

  add_features-status : (draft : Draft) → add_features other draft ≡ add_features df draft
  unfolding add_features
  add_features-status draft = add_tiering-status _

  add_snapshot-status : (draft : Draft) → add_snapshot other draft ≡ add_snapshot df draft
  unfolding add_snapshot
  add_snapshot-status draft = refl

  generated_meta-status : (name : String) → generated_meta other name ≡ generated_meta df name
  unfolding generated_meta
  generated_meta-status name = refl

  generate_service-status : generate_service other ≡ generate_service df
  unfolding generate_service
  generate_service-status = refl

  generate_budget-status : generate_budget other ≡ generate_budget df
  unfolding generate_budget
  generate_budget-status = refl

  set_template_metadata-status :
      (draft : Draft) → set_template_metadata other draft ≡ set_template_metadata df draft
  unfolding set_template_metadata
  set_template_metadata-status draft = refl

  set_probes-status : (draft : Draft) → set_probes other draft ≡ set_probes df draft
  unfolding set_probes
  set_probes-status draft = refl

  probe_config_maps-status :
      (scripts : Scripts) → probe_config_maps scripts other ≡ probe_config_maps scripts df
  unfolding probe_config_maps
  probe_config_maps-status scripts = refl

  finish-status : (draft : Draft) → finish other draft ≡ finish df draft
  unfolding finish
  finish-status draft = refl

  after_snapshot-status : (draft : Draft) → after_snapshot other draft ≡ after_snapshot df draft
  unfolding after_snapshot set_probes set_template_metadata
  after_snapshot-status draft = refl

  budgets-status : budgets other ≡ budgets df
  unfolding budgets generate_budget
  budgets-status = refl

  all_objects-status :
      (scripts : Scripts) (draft : Draft)
      → all_objects scripts other draft ≡ all_objects scripts df draft
  all_objects-status scripts draft =
      rw
        (
          probe_config_maps-status scripts,
          generated_meta-status df.name,
          after_snapshot-status draft,
          generate_service-status,
          budgets-status,
        )
        refl

  answer-status :
      (scripts : Scripts) (checked : Option LabelError) (stored : Result Draft)
      → answer scripts other checked stored ≡ answer scripts df checked stored
  answer-status scripts (some e) stored = refl
  answer-status scripts none (ok draft) = ap ok (all_objects-status scripts draft)
  answer-status scripts none (err e) = refl

  pub generate_dragonfly_resources-status :
      (scripts : Scripts) (image : String)
      → generate_dragonfly_resources scripts other image
        ≡ generate_dragonfly_resources scripts df image
  unfolding generate_dragonfly_resources
  generate_dragonfly_resources-status scripts image =
      let start = initial_draft-status image in
      let featured = add_features-status (initial_draft other image) ∙ ap (add_features df) start in
      let stored =
        add_snapshot-status (add_features other (initial_draft other image))
        ∙ ap (add_snapshot df) featured in
      let checked = check_spec df.spec in
      answer-status scripts checked
        (add_snapshot other (add_features other (initial_draft other image)))
      ∙ ap (answer scripts df checked) stored
