-- ===== src/Resources/Service.antt =====
-- The service and the disruption budget of `GenerateDragonflyResources` (internal/resources/resources.go).
use dragonfly_operator.Prelude.{String, Option, none, some, List, [], ◌∷◌, if◌then◌else◌}
use dragonfly_operator.Prelude.Dict.{Dict, copy}
use dragonfly_operator.Prelude.Int.{ℤ, pos, eq_ℤ, ltb_ℤ}
use dragonfly_operator.Text.{is_empty}
use dragonfly_operator.Kube.{
  Dragonfly, ServiceSpec, PdbSpec, master, role_label_key, dragonfly_name_label_key,
  kubernetes_app_name_label_key, kubernetes_app_name,
}
use dragonfly_operator.Kube.Objects.{
  IntOrString, int, ServicePort, Object, service, disruption_budget,
}
use dragonfly_operator.Resources.{selector_labels, service_labels, generate_resource_annotations}
use dragonfly_operator.Resources.Names.{dragonfly_port_name, dragonfly_port, memcached_port_name}
use dragonfly_operator.Resources.Probes.{generated_meta}

-- The service.
abbrev pub service_name : Dragonfly → String
service_name df = elim df.spec.service_spec [
  | none ↦ df.name
  | some spec ↦ if is_empty spec.name then df.name else spec.name
]

abbrev service_annotations : Dragonfly → Dict String
service_annotations df = elim df.spec.service_spec [
  | none ↦ generate_resource_annotations df
  | some spec ↦ copy (generate_resource_annotations df) spec.annotations
]

abbrev service_type : Option ServiceSpec → String
service_type none = ""
service_type (some spec) = spec.type

abbrev service_node_port : Option ServiceSpec → ℤ
service_node_port none = pos 0
service_node_port (some spec) = spec.node_port

abbrev pub service_ports : Dragonfly → List ServicePort
service_ports df =
    let main : ServicePort = record {
      name = dragonfly_port_name;
      port = dragonfly_port;
      node_port = service_node_port df.spec.service_spec;
      others = "";
    } in
    let memcached : ServicePort = record {
      name = memcached_port_name;
      port = df.spec.memcached_port;
      node_port = pos 0;
      others = "";
    } in
    if eq_ℤ df.spec.memcached_port (pos 0) then main ∷ [] else main ∷ memcached ∷ []

unfoldable pub generate_service : Dragonfly → Object
unfolding generated_meta service_labels copy
generate_service df =
    service
      (record (generated_meta df (service_name df)) {
        labels = some (service_labels df);
        annotations = some (service_annotations df);
      })
      (record {
        selector = some (
            (dragonfly_name_label_key, df.name)
            ∷ (kubernetes_app_name_label_key, kubernetes_app_name)
            ∷ (role_label_key, master)
            ∷ []);
        ports = some (service_ports df);
        type = service_type df.spec.service_spec;
        cluster_ip = "";
        ip_families = none;
        ip_family_policy = none;
        external_traffic_policy = "";
        health_check_node_port = pos 0;
        load_balancer_class = none;
        others = "";
      })

-- The limits of the disruption budget: the least number of available pods, and the greatest of
-- unavailable ones.
unfoldable pub budget_limits : Option PdbSpec → Option IntOrString × Option IntOrString
budget_limits none = (none, some (int (pos 1)))
budget_limits (some pdb) = elim pdb.max_unavailable [
  | some limit ↦ (none, some limit)
  | none ↦ elim pdb.min_available [
    | none ↦ (none, some (int (pos 1)))
    | some limit ↦ (some limit, none)
  ]
]

unfoldable pub generate_budget : Dragonfly → Object
unfolding generated_meta budget_limits
generate_budget df =
    let (least, greatest) = budget_limits df.spec.pdb in
    disruption_budget (generated_meta df df.name) (record {
      selector = some (selector_labels df);
      min_available = least;
      max_unavailable = greatest;
      others = "";
    })

unfoldable pub budgets : Dragonfly → List Object
unfolding generate_budget
budgets df = if ltb_ℤ (pos 1) df.spec.replicas then generate_budget df ∷ [] else []
