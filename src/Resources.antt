-- ===== src/Resources.antt =====
-- The labels and annotations of the generated resources, and the merge of lists by name
-- (internal/resources/resources.go).
pub mod Safety
pub mod Merge
pub mod Names
pub mod Draft
pub mod Features
pub mod Storage
pub mod Probes
pub mod Service
pub mod Generate
pub mod Backing
pub mod Status
pub mod Outcome
pub mod Kept
pub mod Validity
pub mod Ownership
pub mod Selector
pub mod Mounts
use dragonfly_operator.Prelude.{
  String, Bool, true, false, not, Option, none, some, List, [], ◌∷◌, ◌++◌, if◌then◌else◌, ◌==◌,
}
use dragonfly_operator.Prelude.Dict.{Dict, lookup, insert, copy}
use dragonfly_operator.Kube.{
  Dragonfly, DragonflySpec, MetadataSpec, ServiceSpec, kubernetes_app_name_label_key,
  kubernetes_app_name, kubernetes_part_of_label_key, kubernetes_part_of, dragonfly_name_label_key,
}

abbrev pub kubernetes_app_version_label_key : String
kubernetes_app_version_label_key = "app.kubernetes.io/version"

abbrev pub kubernetes_app_component_label_key : String
kubernetes_app_component_label_key = "app.kubernetes.io/component"

abbrev pub kubernetes_app_component : String
kubernetes_app_component = "dragonfly"

abbrev pub kubernetes_app_instance_label_key : String
kubernetes_app_instance_label_key = "app.kubernetes.io/instance"

abbrev pub kubernetes_managed_by_label_key : String
kubernetes_managed_by_label_key = "app.kubernetes.io/managed-by"

abbrev pub dragonfly_operator_name : String
dragonfly_operator_name = "dragonfly-operator"

abbrev pub version : String
version = "v2.0.2"

abbrev pub operator_managed_labels : Dict Bool
operator_managed_labels =
    (kubernetes_app_component_label_key, true)
    ∷ (kubernetes_app_instance_label_key, true)
    ∷ (kubernetes_app_name_label_key, true)
    ∷ (kubernetes_app_version_label_key, true)
    ∷ (kubernetes_part_of_label_key, true)
    ∷ (kubernetes_managed_by_label_key, true)
    ∷ (dragonfly_name_label_key, true)
    ∷ []

abbrev true_or_missing : Option Bool → Bool
true_or_missing none = false
true_or_missing (some b) = b

-- `operatorManagedLabels[key]`, which is false for a missing key.
unfoldable pub is_managed : String → Bool
unfolding lookup
is_managed key = true_or_missing (lookup key operator_managed_labels)

-- What the error names: the field of the spec, and the label.
pub record LabelError : Type 0 where
  pub field : String
  pub key : String

-- `none` is no error. Go visits the labels in any order, here it is that of the list.
unfoldable pub check_labels : String → Dict String → Option LabelError
check_labels field [] = none
check_labels field ((key, value) ∷ labels) =
    if is_managed key then some (record { field = field; key = key }) else check_labels field labels

abbrev pub check_metadata : String → Option MetadataSpec → Option LabelError
check_metadata field none = none
check_metadata field (some metadata) = check_labels field metadata.labels

abbrev pub check_service : Option ServiceSpec → Option LabelError
check_service none = none
check_service (some service) = check_labels "spec.serviceSpec.labels" service.labels

-- `if err := …; err != nil { return nil, err }`.
abbrev pub or_error : Option LabelError → Option LabelError → Option LabelError
or_error none rest = rest
or_error (some e) rest = some e

-- The checks at the top of `GenerateDragonflyResources`.
unfoldable pub check_spec : DragonflySpec → Option LabelError
unfolding check_labels
check_spec spec = or_error (check_labels "spec.labels" spec.labels) (
    or_error (check_metadata "spec.podMetadata.labels" spec.pod_metadata) (
      or_error (check_metadata "spec.ownedObjectsMetadata.labels" spec.owned_objects_metadata)
        (check_service spec.service_spec)))

abbrev pub copy_labels : Dict String → Option MetadataSpec → Dict String
copy_labels labels none = labels
copy_labels labels (some metadata) = copy labels metadata.labels

abbrev pub copy_annotations : Dict String → Option MetadataSpec → Dict String
copy_annotations annotations none = annotations
copy_annotations annotations (some metadata) = copy annotations metadata.annotations

-- The labels that `generateResourceLabels` starts from.
abbrev pub resource_labels : Dragonfly → Dict String
resource_labels df =
    (kubernetes_app_component_label_key, kubernetes_app_component)
    ∷ (kubernetes_app_instance_label_key, df.name)
    ∷ (kubernetes_app_name_label_key, kubernetes_app_name)
    ∷ (kubernetes_app_version_label_key, version)
    ∷ (kubernetes_part_of_label_key, kubernetes_part_of)
    ∷ (kubernetes_managed_by_label_key, dragonfly_operator_name)
    ∷ (dragonfly_name_label_key, df.name)
    ∷ []

unfoldable pub generate_resource_labels : Dragonfly → Dict String
unfolding copy
generate_resource_labels df = copy_labels (resource_labels df) df.spec.owned_objects_metadata

unfoldable pub generate_resource_annotations : Dragonfly → Dict String
unfolding copy
generate_resource_annotations df = copy_annotations [] df.spec.owned_objects_metadata

-- The labels of the service.
abbrev pub copy_service_labels : Dict String → Option ServiceSpec → Dict String
copy_service_labels labels none = labels
copy_service_labels labels (some service) = copy labels service.labels

unfoldable pub service_labels : Dragonfly → Dict String
unfolding generate_resource_labels
service_labels df = copy_service_labels (generate_resource_labels df) df.spec.service_spec

-- The labels of the pods, by which the stateful set and the controllers select them.
abbrev pub selector_labels : Dragonfly → Dict String
selector_labels df =
    (dragonfly_name_label_key, df.name)
    ∷ (kubernetes_part_of_label_key, kubernetes_part_of)
    ∷ (kubernetes_app_name_label_key, kubernetes_app_name)
    ∷ []

unfoldable pub template_labels : Dragonfly → Dict String
unfolding copy
template_labels df = copy_labels (copy (selector_labels df) df.spec.labels) df.spec.pod_metadata

module _ {ℓ} {T : Type ℓ} (get_name : T → String) where
  -- `existing[name]`, for the names of the override.
  unfoldable pub has_name : String → List T → Bool
  has_name name [] = false
  has_name name (item ∷ items) = if get_name item == name then true else has_name name items

  -- The items of the base that are not overridden.
  unfoldable pub not_overridden : List T → List T → List T
  unfolding has_name
  not_overridden [] override = []
  not_overridden (item ∷ base) override =
      let rest = not_overridden base override in
      if not (has_name (get_name item) override) then item ∷ rest else rest

  unfoldable pub merge_named_slices : List T → List T → List T
  unfolding not_overridden
  merge_named_slices base override = override ++ not_overridden base override
