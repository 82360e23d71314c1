-- ===== src/Resources/Safety.antt =====
-- The labels of the spec and those that the operator manages (`checkLabels`, `generateResourceLabels`).
use dragonfly_operator.Prelude.{
  ◌≡◌, refl, ◌∙◌, ap, String, true, Option, none, some, [], ◌∷◌, arith, eq_iff, All,
}
use dragonfly_operator.Prelude.Dict.{Dict, lookup, copy, or_else, lookup-copy}
use dragonfly_operator.Kube.{
  Dragonfly, MetadataSpec, ServiceSpec, dragonfly_name_label_key, kubernetes_part_of_label_key,
  kubernetes_app_name_label_key,
}
use dragonfly_operator.Instance.Queries.{instance_labels}
use dragonfly_operator.Resources.{
  is_managed, check_labels, check_metadata, check_service, or_error, LabelError, check_spec,
  copy_labels, resource_labels, generate_resource_labels, copy_service_labels, service_labels,
  selector_labels, template_labels,
}

check_labels-unmanaged :
    (field key : String) (labels : Dict String)
    → check_labels field labels ≡ none
    → is_managed key ≡ true
    → lookup key labels ≡ none
unfolding check_labels lookup
check_labels-unmanaged field key [] h m = refl
check_labels-unmanaged field key ((k, v) ∷ labels) h m =
    ground (arith, check_labels-unmanaged field key labels, eq_iff k key)

-- Copying labels that have no managed key keeps the managed ones.
copy-keeps :
    (field key : String) (labels extra : Dict String)
    → check_labels field extra ≡ none
    → is_managed key ≡ true
    → lookup key (copy labels extra) ≡ lookup key labels
copy-keeps field key labels extra h m =
    lookup-copy key labels extra
    ∙ ap (λ found. or_else found (lookup key labels)) (check_labels-unmanaged field key extra h m)

copy_labels-keeps :
    (field key : String) (labels : Dict String) (metadata : Option MetadataSpec)
    → check_metadata field metadata ≡ none
    → is_managed key ≡ true
    → lookup key (copy_labels labels metadata) ≡ lookup key labels
copy_labels-keeps field key labels none h m = refl
copy_labels-keeps field key labels (some metadata) h m =
    copy-keeps field key labels metadata.labels h m

copy_service_labels-keeps :
    (key : String) (labels : Dict String) (service : Option ServiceSpec)
    → check_service service ≡ none
    → is_managed key ≡ true
    → lookup key (copy_service_labels labels service) ≡ lookup key labels
copy_service_labels-keeps key labels none h m = refl
copy_service_labels-keeps key labels (some service) h m =
    copy-keeps "spec.serviceSpec.labels" key labels service.labels h m

or_error-none : (a b : Option LabelError) → or_error a b ≡ none → (a ≡ none) × (b ≡ none)
or_error-none none b h = (refl, h)
or_error-none (some e) b h = cc

-- The labels that the operator manages are the same as without the spec, where the checks pass.
pub check_spec-keeps_managed :
    (df : Dragonfly) (key : String)
    → check_spec df.spec ≡ none
    → is_managed key ≡ true
    → (lookup key (generate_resource_labels df) ≡ lookup key (resource_labels df))
      × (lookup key (service_labels df) ≡ lookup key (resource_labels df))
      × (lookup key (template_labels df) ≡ lookup key (selector_labels df))
unfolding check_spec generate_resource_labels service_labels template_labels
check_spec-keeps_managed df key h m =
    let (labels, others) = or_error-none _ _ h in
    let (pods, rest) = or_error-none _ _ others in
    let (owned, service) = or_error-none _ _ rest in
    let generated =
      copy_labels-keeps _ key (resource_labels df) df.spec.owned_objects_metadata owned m in
    (
      generated,
      copy_service_labels-keeps key (generate_resource_labels df) df.spec.service_spec service m
          ∙ generated,
      copy_labels-keeps _ key (copy (selector_labels df) df.spec.labels) df.spec.pod_metadata pods m
          ∙ copy-keeps _ key (selector_labels df) df.spec.labels labels m,
    )

-- If the checks at the top of `GenerateDragonflyResources` pass, the pods of the stateful set have
-- every label by which the controllers list the pods of the instance, with the value that they ask for.
pub template_labels-instance_labels :
    (df : Dragonfly)
    → check_spec df.spec ≡ none
    → All
        (λ (label : String × String). lookup label.0 (template_labels df) ≡ some label.1)
        (instance_labels df)
unfolding lookup is_managed
template_labels-instance_labels df h =
    let kept =
      λ (key : String) (m : is_managed key ≡ true). (check_spec-keeps_managed df key h m).2 in
    (
      kept dragonfly_name_label_key refl,
      (kept kubernetes_part_of_label_key refl, (kept kubernetes_app_name_label_key refl, tt)),
    )
