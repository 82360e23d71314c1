-- ===== src/Resources/Validity.antt =====
-- Which specs `GenerateDragonflyResources` accepts (internal/resources/resources.go).
use dragonfly_operator.Prelude.{
  ◌≡◌, refl, String, false, ◌↔◌, Option, none, some, List, [], ◌∷◌, All, Bool-cases, inl, inr,
}
use dragonfly_operator.Prelude.Dict.{Dict}
use dragonfly_operator.Kube.{Dragonfly, DragonflySpec, Snapshot, MetadataSpec, ServiceSpec}
use dragonfly_operator.Kube.Objects.{Object}
use dragonfly_operator.Effects.Errors.{ok}
use dragonfly_operator.Resources.{
  is_managed, check_labels, check_metadata, check_service, or_error, check_spec, LabelError,
}
use dragonfly_operator.Resources.Draft.{Draft}
use dragonfly_operator.Resources.Features.{add_features}
use dragonfly_operator.Resources.Storage.{
  has_two_claims, has_cron_only, add_snapshot, add_snapshot_of,
}
use dragonfly_operator.Resources.Probes.{Scripts}
use dragonfly_operator.Resources.Outcome.{
  generate_dragonfly_resources-FromDraft, generate_dragonfly_resources_run,
}
use dragonfly_operator.Resources.Generate.{initial_draft, all_objects, generate_dragonfly_resources}

-- None of the labels is the operator's.
abbrev pub AreUnmanaged : Dict String → Type 0
AreUnmanaged labels = All (λ (label : String × String). is_managed label.0 ≡ false) labels

abbrev pub HasUnmanaged : Option MetadataSpec → Type 0
HasUnmanaged none = Unit
HasUnmanaged (some metadata) = AreUnmanaged metadata.labels

abbrev pub HasUnmanagedService : Option ServiceSpec → Type 0
HasUnmanagedService none = Unit
HasUnmanagedService (some service) = AreUnmanaged service.labels

-- At most one claim for the snapshots, and with a schedule a claim or a directory.
abbrev pub IsStorable : Option Snapshot → Type 0
IsStorable none = Unit
IsStorable (some snapshot) = (has_two_claims snapshot ≡ false) × (has_cron_only snapshot ≡ false)

pub record IsAcceptable (spec : DragonflySpec) : Type 0 where
  pub labels : AreUnmanaged spec.labels
  pub pods : HasUnmanaged spec.pod_metadata
  pub owned : HasUnmanaged spec.owned_objects_metadata
  pub exposed : HasUnmanagedService spec.service_spec
  pub snapshot : IsStorable spec.snapshot

check_labels-none :
    (field : String) (labels : Dict String)
    → (check_labels field labels ≡ none) ↔ AreUnmanaged labels
unfolding check_labels
check_labels-none field [] = (λ e. tt, λ h. refl)
check_labels-none field ((k, v) ∷ labels) =
    let (to, from) = check_labels-none field labels in
    elim (Bool-cases (is_managed k)) [
      | inl e ↦ rw e (λ h. cc, λ h. cc)
      | inr e ↦ rw e (λ h. (refl, to h), λ h. from h.1)
    ]

check_metadata-none :
    (field : String) (metadata : Option MetadataSpec)
    → (check_metadata field metadata ≡ none) ↔ HasUnmanaged metadata
check_metadata-none field none = (λ e. tt, λ h. refl)
check_metadata-none field (some metadata) = check_labels-none field metadata.labels

check_service-none :
    (service : Option ServiceSpec) → (check_service service ≡ none) ↔ HasUnmanagedService service
check_service-none none = (λ e. tt, λ h. refl)
check_service-none (some service) = check_labels-none "spec.serviceSpec.labels" service.labels

or_error-none : (a b : Option LabelError) → (or_error a b ≡ none) ↔ ((a ≡ none) × (b ≡ none))
or_error-none none b = (λ h. (refl, h), λ h. h.1)
or_error-none (some e) b = (λ h. cc, λ h. cc)

-- Whether the draft gets its storage, and then it does.
add_snapshot_of_ok :
    (df : Dragonfly) (draft : Draft) (snapshot : Option Snapshot)
    → ((stored : Draft) × (add_snapshot_of df draft snapshot ≡ ok stored)) ↔ IsStorable snapshot
unfolding add_snapshot_of
add_snapshot_of_ok df draft none = (λ found. tt, λ h. (draft, refl))
add_snapshot_of_ok df draft (some snapshot) = elim (Bool-cases (has_two_claims snapshot)) [
  | inl two ↦ rw two (λ found. let e = found.1 in cc, λ h. cc)
  | inr one ↦ elim (Bool-cases (has_cron_only snapshot)) [
    | inl cron ↦ rw (one, cron) (λ found. let e = found.1 in cc, λ h. cc)
    | inr fine ↦ rw (one, fine) (λ found. (refl, refl), λ h. (_, refl))
  ]
]

module _ (scripts : Scripts) (df : Dragonfly) (image : String) where
  accept :
      IsAcceptable df.spec
      → (objects : List Object) × (generate_dragonfly_resources scripts df image ≡ ok objects)
  unfolding check_spec add_snapshot
  accept h =
      let draft = add_features df (initial_draft df image) in
      let (stored, e) = (add_snapshot_of_ok df draft df.spec.snapshot).1 h.snapshot in
      let labels = (check_labels-none _ df.spec.labels).1 h.labels in
      let pods = (check_metadata-none _ df.spec.pod_metadata).1 h.pods in
      let owned = (check_metadata-none _ df.spec.owned_objects_metadata).1 h.owned in
      let exposed = (check_service-none df.spec.service_spec).1 h.exposed in
      let rest = (or_error-none _ _).1 (owned, exposed) in
      let checked = (or_error-none _ _).1 (labels, (or_error-none _ _).1 (pods, rest)) in
      (
        all_objects scripts df stored,
        generate_dragonfly_resources_run scripts df image stored checked e,
      )

  accepted :
      (objects : List Object)
      → generate_dragonfly_resources scripts df image ≡ ok objects
      → IsAcceptable df.spec
  unfolding check_spec add_snapshot
  accepted objects e =
      let found = generate_dragonfly_resources-FromDraft scripts df image objects e in
      let (labels, others) = (or_error-none _ _).0 found.checked in
      let (pods, rest) = (or_error-none _ _).0 others in
      let (owned, exposed) = (or_error-none _ _).0 rest in
      record {
        labels = (check_labels-none _ df.spec.labels).0 labels;
        pods = (check_metadata-none _ df.spec.pod_metadata).0 pods;
        owned = (check_metadata-none _ df.spec.owned_objects_metadata).0 owned;
        exposed = (check_service-none df.spec.service_spec).0 exposed;
        snapshot = (add_snapshot_of_ok df _ df.spec.snapshot).0 (found.draft, found.stored);
      }

  -- Objects are generated, and no error is returned, exactly for the specs in which no label is one of
  -- the operator's, at most one claim for the snapshots is given, and a schedule for snapshots comes with
  -- a claim or a directory.
  pub generate_dragonfly_resources-IsAcceptable :
      ((objects : List Object) × (generate_dragonfly_resources scripts df image ≡ ok objects))
      ↔ IsAcceptable df.spec
  generate_dragonfly_resources-IsAcceptable = (λ found. accepted found.0 found.1, accept)
