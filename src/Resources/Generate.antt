-- ===== src/Resources/Generate.antt =====
-- `GenerateDragonflyResources` (internal/resources/resources.go).
use dragonfly_operator.Prelude.{
  Option, String, ◌<>◌, false, none, some, List, [], ◌∷◌, ◌++◌, if◌then◌else◌,
}
use dragonfly_operator.Prelude.Int.{ℤ}
use dragonfly_operator.Text.{is_empty}
use dragonfly_operator.Text.Decimal.{decimal_ℤ}
use dragonfly_operator.Effects.Errors.{Err, errorf, Result, ok, err}
use dragonfly_operator.Kube.{Dragonfly, dragonfly_container_name}
use dragonfly_operator.Kube.Objects.{
  Container, ContainerPort, EnvVar, Probe, PodSpec, StatefulSetSpec, Object, stateful_set, Volume,
  VolumeMount,
}
use dragonfly_operator.Resources.{
  LabelError, check_spec, selector_labels, version, merge_named_slices,
}
use dragonfly_operator.Resources.Names.{
  dragonfly_port_name, dragonfly_port, dragonfly_admin_port_name, admin_port, dragonfly_image,
}
use dragonfly_operator.Resources.Draft.{Draft, items}
use dragonfly_operator.Resources.Features.{add_features}
use dragonfly_operator.Resources.Storage.{
  or_given, add_snapshot, add_tls, set_template_metadata, set_placement, add_authentication,
}
use dragonfly_operator.Resources.Service.{generate_service, budgets}
use dragonfly_operator.Resources.Probes.{generated_meta, set_probes, Scripts, probe_config_maps}

abbrev pub default_dragonfly_args : List String
unfolding decimal_ℤ
default_dragonfly_args =
    "--alsologtostderr"
    ∷ "--break_replication_on_master_restart=true"
    ∷ "--primary_port_http_enabled=false"
    ∷ ("--admin_port=" <> decimal_ℤ admin_port)
    ∷ "--admin_nopass"
    ∷ []

unfoldable pub image_of : Dragonfly → String → String
image_of df default_image =
    if is_empty df.spec.image
    then (if is_empty default_image then dragonfly_image <> ":" <> version else default_image)
    else df.spec.image

abbrev healthcheck : Probe
healthcheck = record {
  command = "/bin/sh" ∷ "/usr/local/bin/healthcheck.sh" ∷ [];
  failure_threshold = 3;
  initial_delay_seconds = 10;
  period_seconds = 10;
  success_threshold = 1;
  timeout_seconds = 5;
  others = "";
}

abbrev port_of : String → ℤ → ContainerPort
port_of name port = record { name = name; container_port = port; others = "" }

abbrev healthcheck_port : EnvVar
unfolding decimal_ℤ
healthcheck_port = record {
  name = "HEALTHCHECK_PORT";
  value = decimal_ℤ admin_port;
  value_from = none;
}

abbrev initial_container : Dragonfly → String → Container
initial_container df default_image = record {
  name = dragonfly_container_name;
  image = image_of df default_image;
  ports = some (
      port_of dragonfly_port_name dragonfly_port
      ∷ port_of dragonfly_admin_port_name admin_port
      ∷ []);
  args = some default_dragonfly_args;
  env = some (df.spec.env ++ (healthcheck_port ∷ []));
  readiness_probe = some healthcheck;
  liveness_probe = some healthcheck;
  startup_probe = none;
  image_pull_policy = df.spec.image_pull_policy;
  security_context = none;
  resources = "";
  volume_mounts = none;
  others = "";
}

abbrev initial_pod : Dragonfly → PodSpec
initial_pod df = record {
  image_pull_secrets = df.spec.image_pull_secrets;
  enable_service_links = some false;
  containers = none;
  init_containers = none;
  readiness_gates = none;
  security_context = none;
  affinity = none;
  node_selector = none;
  tolerations = none;
  topology_spread_constraints = none;
  service_account_name = "";
  priority_class_name = "";
  volumes = none;
  others = "";
}

abbrev initial_spec : Dragonfly → StatefulSetSpec
initial_spec df = record {
  replicas = some df.spec.replicas;
  service_name = df.name;
  selector = some (selector_labels df);
  update_strategy = "OnDelete";
  template_labels = some (selector_labels df);
  template_annotations = some [];
  pod = initial_pod df;
  volume_claim_templates = none;
  pod_management_policy = "";
  retention_policy = none;
  others = "";
}

unfoldable pub initial_draft : Dragonfly → String → Draft
unfolding decimal_ℤ image_of
initial_draft df default_image = record {
  main = initial_container df default_image;
  pod = initial_pod df;
  spec = initial_spec df;
}

abbrev pub volume_name : Volume → String
volume_name volume = volume.name

abbrev pub mount_name : VolumeMount → String
mount_name mount = mount.name

abbrev pub container_name : Container → String
container_name container = container.name

-- The additional mounts, containers and volumes, and the retention policy of the claims.
unfoldable pub finish : Dragonfly → Draft → StatefulSetSpec
unfolding merge_named_slices
finish df draft =
    let mounts =
      merge_named_slices mount_name (items draft.main.volume_mounts)
        df.spec.additional_volume_mounts in
    let main : Container = record (draft.main) { volume_mounts = some mounts } in
    let containers = merge_named_slices container_name (main ∷ []) df.spec.additional_containers in
    let volumes =
      merge_named_slices volume_name (items draft.pod.volumes) df.spec.additional_volumes in
    let pod : PodSpec = record (draft.pod) {
      containers = some containers;
      volumes = some volumes;
    } in
    record (draft.spec) {
      pod = pod;
      retention_policy = or_given draft.spec.retention_policy df.spec.retention_policy;
    }

-- The blocks after that of the snapshots.
unfoldable pub after_snapshot : Dragonfly → Draft → StatefulSetSpec
unfolding finish
after_snapshot df draft =
    let spec = df.spec in
    finish df (
      set_probes df (
        add_authentication spec
          (set_placement spec (set_template_metadata df (add_tls spec draft)))))

abbrev pub label_error : LabelError → Err
label_error e = errorf (e.field <> ": cannot override operator-managed label \"" <> e.key <> "\"")

abbrev pub on_draft : (Draft → List Object) → Result Draft → Result (List Object)
on_draft f (ok draft) = ok (f draft)
on_draft f (err e) = err e

-- The objects, once the draft has its storage.
abbrev pub all_objects : Scripts → Dragonfly → Draft → List Object
all_objects scripts df draft =
    probe_config_maps scripts df
    ++ (stateful_set (generated_meta df df.name) (after_snapshot df draft)
        ∷ generate_service df
        ∷ budgets df)

-- The answer, from that of the checks and from the draft.
abbrev pub answer : Scripts → Dragonfly → Option LabelError → Result Draft → Result (List Object)
answer scripts df (some e) stored = err (label_error e)
answer scripts df none stored = on_draft (all_objects scripts df) stored

unfoldable pub generate_dragonfly_resources : Scripts → Dragonfly → String → Result (List Object)
unfolding check_spec initial_draft add_features add_snapshot
generate_dragonfly_resources scripts df default_image =
    answer scripts df (check_spec df.spec)
      (add_snapshot df (add_features df (initial_draft df default_image)))
