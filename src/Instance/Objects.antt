-- ===== src/Instance/Objects.antt =====
-- The comparison and the update of generated objects: the helpers of `reconcileResources` and the fields
-- that it preserves (internal/controller/dragonfly_instance.go).
pub mod Ports
pub mod Settled
pub mod Meaning
use dragonfly_operator.Prelude.{
  String, Bool, true, false, ◌&&◌, ◌||◌, ◌==◌, none, some, List, [], ◌∷◌, map, if◌then◌else◌,
}
use dragonfly_operator.Prelude.Dict.{Dict}
use dragonfly_operator.Text.{is_empty}
use dragonfly_operator.Kube.Objects.{
  Nilable, ClaimSpec, PersistentVolumeClaim, StatefulSetSpec, ServicePort, ServiceObjectSpec,
  ObjectMeta, Object, stateful_set, service, disruption_budget, config, meta_of, with_meta,
}
use dragonfly_operator.Kube.Equality.{
  decided, ClaimSpec-discrete, dict_equal, nil_equal, stateful_set_equal, service_equal,
  budget_equal,
}
use dragonfly_operator.Resources.Draft.{items}

unfoldable pub pod_management_policy_or_default : String → String
pod_management_policy_or_default policy = if is_empty policy then "OrderedReady" else policy

unfoldable pub defaulted_pvc_spec : ClaimSpec → ClaimSpec
defaulted_pvc_spec spec = elim spec.volume_mode [
  | none ↦ record spec { volume_mode = some "Filesystem" }
  | some mode ↦ spec
]

-- `equality.Semantic.DeepEqual` of maps, where nil equals the empty one.
abbrev pub semantic_equal : Nilable (Dict String) → Nilable (Dict String) → Bool
semantic_equal a b = dict_equal (items a) (items b)

unfoldable pub claim_template_equal : PersistentVolumeClaim → PersistentVolumeClaim → Bool
unfolding dict_equal defaulted_pvc_spec ClaimSpec-discrete
claim_template_equal desired existing =
    desired.name == existing.name
    && semantic_equal desired.labels existing.labels
    && semantic_equal desired.annotations existing.annotations
    && decided
        (ClaimSpec-discrete (defaulted_pvc_spec desired.spec) (defaulted_pvc_spec existing.spec))

unfoldable pub volume_claim_templates_equal :
    List PersistentVolumeClaim → List PersistentVolumeClaim → Bool
unfolding claim_template_equal
volume_claim_templates_equal [] [] = true
volume_claim_templates_equal [] (e ∷ existing) = false
volume_claim_templates_equal (d ∷ desired) [] = false
volume_claim_templates_equal (d ∷ desired) (e ∷ existing) =
    claim_template_equal d e && volume_claim_templates_equal desired existing

-- The fields of a stateful set that cannot be changed.
abbrev pub preserve_stateful_set : StatefulSetSpec → StatefulSetSpec → StatefulSetSpec
preserve_stateful_set desired existing = record desired {
  volume_claim_templates = existing.volume_claim_templates;
  selector = existing.selector;
  service_name = existing.service_name;
  pod_management_policy = existing.pod_management_policy;
}

-- The loop over the existing ports ends at the first one of the name.
unfoldable pub preserve_node_port : ServicePort → List ServicePort → ServicePort
preserve_node_port desired [] = desired
preserve_node_port desired (e ∷ existing) =
    let rest = preserve_node_port desired existing in
    if desired.name == e.name then record desired { node_port = e.node_port } else rest

abbrev pub has_node_ports : ServiceObjectSpec → Bool
has_node_ports spec = spec.type == "NodePort" || spec.type == "LoadBalancer"

abbrev pub preserve_ports :
    Nilable (List ServicePort) → Nilable (List ServicePort) → Nilable (List ServicePort)
preserve_ports none existing = none
preserve_ports (some ports) existing =
    some (map (λ port. preserve_node_port port (items existing)) ports)

-- The fields of a service that cannot be changed, or that the cluster sets.
unfoldable pub preserve_service : ServiceObjectSpec → ServiceObjectSpec → ServiceObjectSpec
unfolding preserve_node_port
preserve_service desired existing =
    let balances = desired.type == "LoadBalancer" in
    record desired {
      cluster_ip = existing.cluster_ip;
      ip_families = existing.ip_families;
      ip_family_policy = existing.ip_family_policy;
      ports =
          if has_node_ports desired
          then preserve_ports desired.ports existing.ports
          else desired.ports;
      external_traffic_policy =
          if has_node_ports desired
          then existing.external_traffic_policy
          else desired.external_traffic_policy;
      health_check_node_port =
          if balances && existing.external_traffic_policy == "Local"
          then existing.health_check_node_port
          else desired.health_check_node_port;
      load_balancer_class =
          if balances then existing.load_balancer_class else desired.load_balancer_class;
    }

-- The answer of the API server has the kind that was asked for.
unfoldable pub preserve_immutable : Object → Object → Object
unfolding preserve_service
preserve_immutable (stateful_set m desired) (stateful_set n existing) =
    stateful_set m (preserve_stateful_set desired existing)
preserve_immutable (service m desired) (service n existing) =
    service m (preserve_service desired existing)
preserve_immutable desired existing = desired

abbrev pub metadata_equal : ObjectMeta → ObjectMeta → Bool
metadata_equal desired existing =
    nil_equal dict_equal desired.labels existing.labels
    && nil_equal dict_equal desired.annotations existing.annotations

-- The data of config maps, which have no field Spec, else the specifications.
abbrev pub payload_equal : Object → Object → Bool
payload_equal (config m desired binary) (config n existing old_binary) =
    nil_equal dict_equal desired existing
payload_equal (config m desired binary) existing = true
payload_equal desired (config n existing old_binary) = true
payload_equal (stateful_set m desired) (stateful_set n existing) =
    stateful_set_equal desired existing
payload_equal (service m desired) (service n existing) = service_equal desired existing
payload_equal (disruption_budget m desired) (disruption_budget n existing) =
    budget_equal desired existing
payload_equal desired existing = false

unfoldable pub resource_specs_equal : Object → Object → Bool
resource_specs_equal desired existing =
    metadata_equal (meta_of desired) (meta_of existing) && payload_equal desired existing

unfoldable pub copy_desired_payload : Object → Object → Object
copy_desired_payload (stateful_set m desired) (stateful_set n existing) = stateful_set n desired
copy_desired_payload (service m desired) (service n existing) = service n desired
copy_desired_payload (disruption_budget m desired) (disruption_budget n existing) =
    disruption_budget n desired
copy_desired_payload (config m desired binary) (config n existing old_binary) =
    config n desired binary
copy_desired_payload desired existing = existing

-- The existing object with the labels, the annotations and the payload of the desired one.
unfoldable pub patched : Object → Object → Object
unfolding copy_desired_payload
patched desired existing = copy_desired_payload desired (
    with_meta
      (record (meta_of existing) {
        labels = (meta_of desired).labels;
        annotations = (meta_of desired).annotations;
      })
      existing)

abbrev pub kind_of : Object → String
kind_of (stateful_set meta spec) = "StatefulSet"
kind_of (service meta spec) = "Service"
kind_of (disruption_budget meta spec) = "PodDisruptionBudget"
kind_of (config meta entries binary_data) = "ConfigMap"
