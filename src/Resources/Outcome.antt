-- ===== src/Resources/Outcome.antt =====
-- What `GenerateDragonflyResources` answers (internal/resources/resources.go).
use dragonfly_operator.Prelude.{
  ◌≡◌, refl, String, Option, none, some, List, ◌++◌, All, All-append, Bool-cases, inl, inr,
}
use dragonfly_operator.Prelude.Int.{pos, ltb_ℤ}
use dragonfly_operator.Kube.{Dragonfly}
use dragonfly_operator.Kube.Objects.{Object, stateful_set}
use dragonfly_operator.Effects.Errors.{Result, ok, err}
use dragonfly_operator.Resources.{check_spec, LabelError}
use dragonfly_operator.Resources.Names.{
  liveness_script_key, readiness_script_key, startup_script_key,
}
use dragonfly_operator.Resources.Draft.{Draft}
use dragonfly_operator.Resources.Features.{add_features}
use dragonfly_operator.Resources.Storage.{add_snapshot}
use dragonfly_operator.Resources.Probes.{
  liveness_name, readiness_name, startup_name, liveness_maps, readiness_maps, startup_maps, Scripts,
  generated_meta, is_custom, has_custom_probes, unless_custom, generate_probe_config_map,
  probe_config_maps,
}
use dragonfly_operator.Resources.Service.{generate_service, generate_budget, budgets}
use dragonfly_operator.Resources.Generate.{
  initial_draft, after_snapshot, on_draft, answer, all_objects, generate_dragonfly_resources,
}

module _ {κ} (P : Object → Type κ) where
  All-unless_custom :
      (custom : Option String) (object : Object) → P object → All P (unless_custom custom object)
  All-unless_custom custom object h = elim (Bool-cases (is_custom custom)) [
    | inl e ↦ rw e tt
    | inr e ↦ rw e (h, tt)
  ]

  All-budgets : (df : Dragonfly) → P (generate_budget df) → All P (budgets df)
  unfolding budgets
  All-budgets df h = elim (Bool-cases (ltb_ℤ (pos 1) df.spec.replicas)) [
    | inl e ↦ rw e (h, tt)
    | inr e ↦ rw e tt
  ]

module _ {κ} (P : Object → Type κ) (df : Dragonfly)
    (each : (name key script : String) → P (generate_probe_config_map df name key script)) where
  pub All-probe_config_maps : (scripts : Scripts) → All P (probe_config_maps scripts df)
  unfolding probe_config_maps
  All-probe_config_maps scripts =
      let live =
        All-unless_custom P df.spec.custom_liveness_probe_config_map _
          (each (liveness_name df) liveness_script_key scripts.liveness) in
      let ready =
        All-unless_custom P df.spec.custom_readiness_probe_config_map _
          (each (readiness_name df) readiness_script_key scripts.readiness) in
      let started =
        All-unless_custom P df.spec.custom_startup_probe_config_map _
          (each (startup_name df) startup_script_key scripts.startup) in
      elim (Bool-cases (has_custom_probes df)) [
        | inl e ↦ rw e (
            All-append P (liveness_maps scripts df)
              (readiness_maps scripts df ++ startup_maps scripts df) live
              (All-append P (readiness_maps scripts df) (startup_maps scripts df) ready started))
        | inr e ↦ rw e tt
      ]

  -- A predicate of all the objects, by their kinds.
  pub All-all_objects :
      (scripts : Scripts) (draft : Draft)
      → P (stateful_set (generated_meta df df.name) (after_snapshot df draft))
      → P (generate_service df)
      → P (generate_budget df)
      → All P (all_objects scripts df draft)
  All-all_objects scripts draft set exposed budget =
      All-append P (probe_config_maps scripts df) _ (All-probe_config_maps scripts)
        (set, (exposed, All-budgets P df budget))

-- The objects from a draft that has its storage.
pub record FromDraft (scripts : Scripts) (df : Dragonfly) (image : String) (objects : List Object)
    : Type 0 where
  pub draft : Draft
  pub checked : check_spec df.spec ≡ none
  pub stored : add_snapshot df (add_features df (initial_draft df image)) ≡ ok draft
  pub all : objects ≡ all_objects scripts df draft

on_draft-ok :
    (f : Draft → List Object) (r : Result Draft) (objects : List Object)
    → on_draft f r ≡ ok objects
    → (draft : Draft) × (r ≡ ok draft) × (objects ≡ f draft)
on_draft-ok f (ok draft) objects e = (draft, refl, cc)
on_draft-ok f (err x) objects e = cc

module _ (scripts : Scripts) (df : Dragonfly) (image : String) (objects : List Object) where
  checked-FromDraft :
      (found : Option LabelError)
      → check_spec df.spec ≡ found
      → answer scripts df found (add_snapshot df (add_features df (initial_draft df image)))
        ≡ ok objects
      → FromDraft scripts df image objects
  checked-FromDraft none c e =
      let (draft, stored, all) = on_draft-ok _ _ objects e in
      record { draft = draft; checked = c; stored = stored; all = all }
  checked-FromDraft (some x) c e = cc

  pub generate_dragonfly_resources-FromDraft :
      generate_dragonfly_resources scripts df image ≡ ok objects
      → FromDraft scripts df image objects
  unfolding generate_dragonfly_resources
  generate_dragonfly_resources-FromDraft e = checked-FromDraft (check_spec df.spec) refl e

module _ (scripts : Scripts) (df : Dragonfly) (image : String) (stored : Draft) where
  answer_ok :
      (found : Option LabelError) (r : Result Draft)
      → found ≡ none
      → r ≡ ok stored
      → answer scripts df found r ≡ ok (all_objects scripts df stored)
  answer_ok found r c e = rw (c, e) refl

  pub generate_dragonfly_resources_run :
      check_spec df.spec ≡ none
      → add_snapshot df (add_features df (initial_draft df image)) ≡ ok stored
      → generate_dragonfly_resources scripts df image ≡ ok (all_objects scripts df stored)
  unfolding generate_dragonfly_resources
  generate_dragonfly_resources_run c e =
      answer_ok (check_spec df.spec) (add_snapshot df (add_features df (initial_draft df image))) c
        e
