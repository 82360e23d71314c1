-- ===== src/Resources/Mounts/Pods.antt =====
-- The mounts of the generated stateful set (`GenerateDragonflyResources` in
-- internal/resources/resources.go).
use dragonfly_operator.Prelude.{
  ◌≡◌, refl, String, Bool, true, false, ◌||◌, ◌⊎◌, inl, inr, some, List, [], ◌∷◌, arith, All,
  All-append, Bool-cases, eq_refl, eq_iff,
}
use dragonfly_operator.Kube.{Dragonfly, DragonflySpec}
use dragonfly_operator.Kube.Objects.{
  ObjectMeta, Container, VolumeMount, StatefulSetSpec, Object, stateful_set, service,
  disruption_budget, config,
}
use dragonfly_operator.Effects.Errors.{ok}
use dragonfly_operator.Resources.{has_name, not_overridden, merge_named_slices}
use dragonfly_operator.Resources.Draft.{Draft, items}
use dragonfly_operator.Resources.Backing.{IsBacked, is_backed, All-weaken, has_name-append}
use dragonfly_operator.Resources.Probes.{Scripts, generated_meta, generate_probe_config_map}
use dragonfly_operator.Resources.Service.{generate_service, generate_budget}
use dragonfly_operator.Resources.Outcome.{All-all_objects, generate_dragonfly_resources-FromDraft}
use dragonfly_operator.Resources.Generate.{
  volume_name, mount_name, container_name, initial_draft, finish, after_snapshot, all_objects,
  generate_dragonfly_resources,
}
use dragonfly_operator.Resources.Kept.Steps.{
  keeps-add_features, keeps-add_snapshot, keeps-metadata, keeps-placement,
}
use dragonfly_operator.Resources.Mounts.{IsBacked-Kept}

-- A volume or a claim of the stateful set has the name of the mount, or an additional mount has.
abbrev pub is_provided : DragonflySpec → StatefulSetSpec → VolumeMount → Bool
is_provided df_spec spec mount =
    is_backed spec.pod.volumes spec.volume_claim_templates mount.name
    || has_name mount_name mount.name df_spec.additional_volume_mounts

-- The container is an additional one, or all its mounts are provided for.
abbrev pub IsMounted : DragonflySpec → StatefulSetSpec → Container → Type 0
IsMounted df_spec spec container =
    (has_name container_name container.name df_spec.additional_containers ≡ true)
    ⊎ All (λ (mount : VolumeMount). is_provided df_spec spec mount ≡ true)
        (items container.volume_mounts)

abbrev pub HasMounts : DragonflySpec → Object → Type 0
HasMounts df_spec (stateful_set meta spec) =
    All (IsMounted df_spec spec) (items spec.pod.containers)
HasMounts df_spec (service meta spec) = Unit
HasMounts df_spec (disruption_budget meta spec) = Unit
HasMounts df_spec (config meta entries binary_data) = Unit

module _ {ℓ} {T : Type ℓ} (get_name : T → String) where
  All-has_name : (xs : List T) → All (λ x. has_name get_name (get_name x) xs ≡ true) xs
  unfolding has_name
  All-has_name [] = tt
  All-has_name (x ∷ xs) =
      (rw (eq_refl (get_name x)) refl, All-weaken (λ y h. rw h ground arith) xs (All-has_name xs))

  has_name-not_overridden :
      (name : String) (base override : List T)
      → has_name get_name name override ≡ false
      → has_name get_name name (not_overridden get_name base override) ≡ has_name get_name name base
  unfolding has_name not_overridden
  has_name-not_overridden name [] override h = refl
  has_name-not_overridden name (item ∷ base) override h =
      ground (arith, has_name-not_overridden name base override h, eq_iff (get_name item) name)

  -- A merge keeps the names.
  has_name-merge :
      (name : String) (base override : List T)
      → has_name get_name name base ≡ true
      → has_name get_name name (merge_named_slices get_name base override) ≡ true
  unfolding merge_named_slices
  has_name-merge name base override h =
      rw (has_name-append get_name name override (not_overridden get_name base override))
        (ground (arith, has_name-not_overridden name base override))

  All-not_overridden {κ} :
      (P : T → Type κ) (base override : List T)
      → All P base
      → All P (not_overridden get_name base override)
  unfolding not_overridden
  All-not_overridden P [] override h = tt
  All-not_overridden P (item ∷ base) override h =
      let rest = All-not_overridden P base override h.1 in
      elim (Bool-cases (has_name get_name (get_name item) override)) [
        | inl e ↦ rw e rest
        | inr e ↦ rw e (h.0, rest)
      ]

module _ (df : Dragonfly) (draft : Draft) (backed : IsBacked draft) where
  is_backed-finish :
      (name : String)
      → is_backed draft.pod.volumes draft.spec.volume_claim_templates name ≡ true
      → is_backed
          (some
            (merge_named_slices volume_name (items draft.pod.volumes) df.spec.additional_volumes))
          draft.spec.volume_claim_templates
          name
        ≡ true
  unfolding is_backed
  is_backed-finish name h =
      ground (
        arith,
        has_name-merge volume_name name (items draft.pod.volumes) df.spec.additional_volumes,
      )

  provided_backed :
      (spec : StatefulSetSpec)
      → spec.pod.volumes
        ≡ some (merge_named_slices volume_name (items draft.pod.volumes) df.spec.additional_volumes)
      → spec.volume_claim_templates ≡ draft.spec.volume_claim_templates
      → (mount : VolumeMount)
      → is_backed draft.pod.volumes draft.spec.volume_claim_templates mount.name ≡ true
      → is_provided df.spec spec mount ≡ true
  provided_backed spec v c mount h = rw (v, c, is_backed-finish mount.name h) refl

  -- The mounts of the main container, with the additional ones.
  finish-mounts :
      (spec : StatefulSetSpec)
      → spec.pod.volumes
        ≡ some (merge_named_slices volume_name (items draft.pod.volumes) df.spec.additional_volumes)
      → spec.volume_claim_templates ≡ draft.spec.volume_claim_templates
      → All
          (λ (mount : VolumeMount). is_provided df.spec spec mount ≡ true)
          (merge_named_slices mount_name
            (items draft.main.volume_mounts)
            df.spec.additional_volume_mounts)
  unfolding merge_named_slices IsBacked
  finish-mounts spec v c =
      All-append _ df.spec.additional_volume_mounts _
        (All-weaken (λ mount h. rw h ground arith) df.spec.additional_volume_mounts
          (All-has_name mount_name df.spec.additional_volume_mounts))
        (All-not_overridden mount_name _ (items draft.main.volume_mounts)
          df.spec.additional_volume_mounts
          (All-weaken (provided_backed spec v c) (items draft.main.volume_mounts) backed))

  -- The additional containers, and the main one where it is not overridden.
  finish-IsMounted :
      (spec : StatefulSetSpec) (main : Container)
      → All
          (λ (mount : VolumeMount). is_provided df.spec spec mount ≡ true)
          (items main.volume_mounts)
      → All
          (IsMounted df.spec spec)
          (merge_named_slices container_name (main ∷ []) df.spec.additional_containers)
  unfolding merge_named_slices
  finish-IsMounted spec main h =
      All-append _ df.spec.additional_containers _
        (All-weaken (λ (container : Container) e. inl e) df.spec.additional_containers
          (All-has_name container_name df.spec.additional_containers))
        (All-not_overridden container_name _ (main ∷ []) df.spec.additional_containers (inr h, tt))

  finish-HasMounts : (meta : ObjectMeta) → HasMounts df.spec (stateful_set meta (finish df draft))
  unfolding finish
  finish-HasMounts meta =
      let spec = finish df draft in finish-IsMounted spec _ (finish-mounts spec refl refl)

module _ (df : Dragonfly) (draft : Draft) (backed : IsBacked draft) where
  after_snapshot-HasMounts :
      (meta : ObjectMeta) → HasMounts df.spec (stateful_set meta (after_snapshot df draft))
  unfolding after_snapshot
  after_snapshot-HasMounts meta =
      let kept = IsBacked-Kept df in
      let labelled = keeps-metadata df IsBacked kept draft backed in
      finish-HasMounts df _ (keeps-placement df IsBacked kept _ labelled) meta

  all_objects-HasMounts :
      (scripts : Scripts) → All (HasMounts df.spec) (all_objects scripts df draft)
  unfolding generate_service generate_budget generate_probe_config_map
  all_objects-HasMounts scripts =
      All-all_objects (HasMounts df.spec) df (λ name key script. tt) scripts draft
        (after_snapshot-HasMounts (generated_meta df df.name)) tt tt

initial_draft-IsBacked : (df : Dragonfly) (image : String) → IsBacked (initial_draft df image)
unfolding initial_draft IsBacked
initial_draft-IsBacked df image = tt

-- In every pod that is generated, each mount of a container has a volume or a claim of its name, or an
-- additional mount has the name, except in the containers that the spec adds or overrides.
pub generate_dragonfly_resources-HasMounts :
    (scripts : Scripts) (df : Dragonfly) (image : String) (objects : List Object)
    → generate_dragonfly_resources scripts df image ≡ ok objects
    → All (HasMounts df.spec) objects
generate_dragonfly_resources-HasMounts scripts df image objects e =
    let found = generate_dragonfly_resources-FromDraft scripts df image objects e in
    let kept = IsBacked-Kept df in
    let featured = keeps-add_features df IsBacked kept _ (initial_draft-IsBacked df image) in
    let backed = keeps-add_snapshot df IsBacked kept _ found.draft featured found.stored in
    rw (found.all) (all_objects-HasMounts df found.draft backed scripts)
