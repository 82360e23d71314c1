-- ===== src/Resources/Storage.antt =====
-- The blocks of `GenerateDragonflyResources` for snapshots, TLS, the metadata and the placement of the
-- pods, and the authentication (internal/resources/resources.go).
use dragonfly_operator.Prelude.{
  String, ◌<>◌, Bool, true, false, not, ◌&&◌, Option, none, some, [], ◌∷◌, if◌then◌else◌,
}
use dragonfly_operator.Prelude.Dict.{Dict, copy}
use dragonfly_operator.Text.{is_empty}
use dragonfly_operator.Effects.Errors.{errorf, Result, ok, err}
use dragonfly_operator.Kube.{Dragonfly, DragonflySpec, Snapshot, Authentication}
use dragonfly_operator.Kube.Objects.{
  ClaimSpec, PersistentVolumeClaim, secret, claim, secret_key_ref, VolumeMount,
}
use dragonfly_operator.Resources.{selector_labels, template_labels, copy_annotations}
use dragonfly_operator.Resources.Names.{
  snapshots_volume_name, snapshots_dir, snapshots_dir_arg, snapshots_cron_arg, tls_volume_name,
  tls_dir, tls_ca_cert_path_arg, tls_ca_cert_dir, tls_ca_cert_file_name, tls_ca_cert_volume_name,
  tls_cert_path_arg, tls_cert_file_name, tls_key_path_arg, tls_key_file_name, tls_arg,
  no_tls_on_admin_port_arg,
}
use dragonfly_operator.Resources.Draft.{
  Draft, with_pod, with_spec, add_args, add_env, add_mount, add_volume, add_claim, mount_at,
  secret_file,
}
use dragonfly_operator.Resources.Features.{path_arg}

abbrev is_some {ℓ} : {A : Type ℓ} → Option A → Bool
is_some none = false
is_some (some a) = true

-- `persistentVolumeClaimSpec` and `existingPersistentVolumeClaimName` are both given.
abbrev pub has_two_claims : Snapshot → Bool
has_two_claims snapshot =
    is_some snapshot.persistent_volume_claim_spec
    && not (is_empty snapshot.existing_persistent_volume_claim_name)

-- A schedule, and no place for the snapshots.
abbrev pub has_cron_only : Snapshot → Bool
has_cron_only snapshot =
    not (is_empty snapshot.cron)
    && not (is_some snapshot.persistent_volume_claim_spec)
    && is_empty snapshot.existing_persistent_volume_claim_name
    && is_empty snapshot.dir

abbrev pub snapshot_dir : Snapshot → String
snapshot_dir snapshot = if is_empty snapshot.dir then snapshots_dir else snapshot.dir

abbrev snapshot_claim : Dragonfly → ClaimSpec → PersistentVolumeClaim
snapshot_claim df spec = record {
  name = snapshots_volume_name;
  labels = some (selector_labels df);
  annotations = none;
  spec = spec;
  others = "";
}

unfoldable pub add_snapshot_claim : Dragonfly → Snapshot → Draft → Draft
add_snapshot_claim df snapshot draft = elim snapshot.persistent_volume_claim_spec [
  | none ↦ draft
  | some spec ↦
      add_mount (mount_at snapshots_volume_name (snapshot_dir snapshot))
        (add_claim (snapshot_claim df spec) draft)
]

unfoldable pub add_existing_claim : Snapshot → Draft → Draft
add_existing_claim snapshot draft =
    if is_empty snapshot.existing_persistent_volume_claim_name
    then draft
    else add_mount (mount_at snapshots_volume_name (snapshot_dir snapshot)) (
        add_volume
          (record {
            name = snapshots_volume_name;
            source = claim snapshot.existing_persistent_volume_claim_name "";
          })
          draft)

unfoldable pub snapshot_args : Snapshot → Draft → Draft
snapshot_args snapshot draft =
    let at_dir = add_args ((snapshots_dir_arg <> "=" <> snapshot_dir snapshot) ∷ []) draft in
    if is_empty snapshot.cron
    then at_dir
    else add_args ((snapshots_cron_arg <> "=" <> snapshot.cron) ∷ []) at_dir

unfoldable pub add_snapshot_of : Dragonfly → Draft → Option Snapshot → Result Draft
unfolding add_snapshot_claim add_existing_claim snapshot_args
add_snapshot_of df draft none = ok draft
add_snapshot_of df draft (some snapshot) =
    if has_two_claims snapshot
    then err (
        errorf
          "persistentVolumeClaimSpec and existingPersistentVolumeClaimName are mutually exclusive")
    else if has_cron_only snapshot
    then err (errorf "cron specified without a persistent volume claim")
    else ok (
        snapshot_args snapshot (add_existing_claim snapshot (add_snapshot_claim df snapshot draft)))

unfoldable pub add_snapshot : Dragonfly → Draft → Result Draft
unfolding add_snapshot_of
add_snapshot df draft = add_snapshot_of df draft df.spec.snapshot

abbrev read_only : VolumeMount → VolumeMount
read_only mount = record mount { read_only = true }

unfoldable pub add_tls : DragonflySpec → Draft → Draft
add_tls spec draft = elim spec.tls_secret_ref [
  | none ↦ draft
  | some name ↦
      add_args
        (no_tls_on_admin_port_arg
          ∷ tls_arg
          ∷ path_arg tls_cert_path_arg tls_dir tls_cert_file_name
          ∷ path_arg tls_key_path_arg tls_dir tls_key_file_name
          ∷ [])
        (add_mount (read_only (mount_at tls_volume_name tls_dir))
          (add_volume (record { name = tls_volume_name; source = secret name none "" }) draft))
]

-- The annotations of the pods: those of the spec, and over them those of `podMetadata`.
unfoldable pub template_annotations : Dragonfly → Dict String
unfolding copy
template_annotations df = copy_annotations (copy [] df.spec.annotations) df.spec.pod_metadata

unfoldable pub set_template_metadata : Dragonfly → Draft → Draft
unfolding template_labels template_annotations
set_template_metadata df draft =
    with_spec
      (record (draft.spec) {
        template_labels = some (template_labels df);
        template_annotations = some (template_annotations df);
      })
      draft

abbrev pub or_given {ℓ} : {A : Type ℓ} → Option A → Option A → Option A
or_given old none = old
or_given old (some a) = some a

abbrev pub or_text : String → String → String
or_text old text = if is_empty text then old else text

-- Affinity, node selector, tolerations, spread constraints, service account and priority class.
unfoldable pub set_placement : DragonflySpec → Draft → Draft
set_placement spec draft =
    with_pod
      (record (draft.pod) {
        affinity = or_given draft.pod.affinity spec.affinity;
        node_selector = or_given draft.pod.node_selector spec.node_selector;
        tolerations = or_given draft.pod.tolerations spec.tolerations;
        topology_spread_constraints =
            or_given draft.pod.topology_spread_constraints spec.topology_spread_constraints;
        service_account_name = or_text draft.pod.service_account_name spec.service_account_name;
        priority_class_name = or_text draft.pod.priority_class_name spec.priority_class_name;
      })
      draft

unfoldable pub add_password : Authentication → Draft → Draft
add_password authentication draft = elim authentication.password_from_secret [
  | none ↦ draft
  | some key ↦
      add_env
        (record { name = "DFLY_requirepass"; value = ""; value_from = some (secret_key_ref key) })
        draft
]

unfoldable pub add_client_ca : Authentication → Draft → Draft
add_client_ca authentication draft = elim authentication.client_ca_cert_secret [
  | none ↦ draft
  | some cert ↦
      add_args (path_arg tls_ca_cert_path_arg tls_ca_cert_dir tls_ca_cert_file_name ∷ []) (
        add_mount (mount_at tls_ca_cert_volume_name tls_ca_cert_dir) (
          add_volume (secret_file tls_ca_cert_volume_name cert.name cert.key tls_ca_cert_file_name)
            draft))
]

unfoldable pub add_authentication : DragonflySpec → Draft → Draft
unfolding add_password add_client_ca
add_authentication spec draft = elim spec.authentication [
  | none ↦ draft
  | some authentication ↦ add_client_ca authentication (add_password authentication draft)
]
