-- ===== src/Tests/World.antt =====
-- A small cluster: one instance with a master and a replica, both healthy, and its answers.
use dragonfly_operator.Prelude.{
  String, Bool, true, false, none, some, List, [], ◌∷◌, ◌==◌, if◌then◌else◌,
}
use dragonfly_operator.Prelude.Dict.{lookup_text}
use dragonfly_operator.Prelude.Int.{pos}
use dragonfly_operator.Kube.{
  DragonflySpec, Pod, Dragonfly, DragonflyStatus, StatefulSet, role_label_key,
}
use dragonfly_operator.Effects.Errors.{ok, err, answered}
use dragonfly_operator.Effects.Calls.{Env, Instance}

abbrev pub sample_pod : String → String → String → String → Pod
sample_pod name ip role revision = record {
  name = name;
  namespace = "default";
  labels = ("role", role) ∷ ("controller-revision-hash", revision) ∷ ("app", "df") ∷ [];
  annotations = [];
  deletion_timestamp = none;
  phase = "Running";
  pod_ip = ip;
  conditions = record { type = "ContainersReady"; status = "True"; last_transition_time = 1 } ∷ [];
  container_statuses = record { name = "dragonfly"; ready = true } ∷ [];
}

abbrev pub master_pod : Pod
master_pod = sample_pod "df-0" "10.0.0.1" "master" "new"

abbrev pub replica_pod : Pod
replica_pod = sample_pod "df-1" "10.0.0.2" "replica" "new"

abbrev pub outdated_pod : Pod
outdated_pod = sample_pod "df-2" "10.0.0.3" "replica" "old"

abbrev pub sample_stateful_set : StatefulSet
sample_stateful_set = record { replicas = pos 2; updated_replicas = pos 2; update_revision = "new" }

abbrev pub sample_status : DragonflyStatus
sample_status = record { phase = "Ready"; is_rolling_update = true }

abbrev pub sample_spec : DragonflySpec
sample_spec = record {
  replicas = pos 2;
  pod_management_policy = "";
  image = "";
  image_pull_policy = "";
  image_pull_secrets = none;
  args = "--maxmemory=1gb" ∷ [];
  acl_from_secret = none;
  annotations = [];
  labels = ("team", "data") ∷ [];
  pod_metadata = none;
  env = [];
  additional_containers = [];
  additional_volumes = [];
  additional_volume_mounts = [];
  retention_policy = none;
  resources = none;
  affinity = none;
  node_selector = none;
  memcached_port = pos 11211;
  tolerations = none;
  topology_spread_constraints = none;
  authentication = none;
  container_security_context = none;
  pod_security_context = none;
  service_account_name = "";
  priority_class_name = "";
  tls_secret_ref = some "tls";
  tiering = none;
  snapshot = some (record {
    dir = "";
    cron = "*/5 * * * *";
    enable_on_master_only = true;
    persistent_volume_claim_spec = some (record { volume_mode = none; others = "1Gi" });
    existing_persistent_volume_claim_name = "";
  });
  skip_fs_group = false;
  service_spec = some (record {
    type = "NodePort";
    name = "";
    node_port = pos 0;
    annotations = [];
    labels = ("tier", "front") ∷ [];
  });
  init_containers = [];
  owned_objects_metadata = some (record { annotations = []; labels = ("tier", "cache") ∷ [] });
  enable_replication_readiness_gate = false;
  pdb = none;
  custom_liveness_probe_config_map = none;
  custom_readiness_probe_config_map = none;
  custom_startup_probe_config_map = some "startup";
}

abbrev pub sample_df : Dragonfly
sample_df = record {
  api_version = "dragonflydb.io/v1alpha1";
  kind = "Dragonfly";
  name = "df";
  namespace = "default";
  uid = "1";
  deletion_timestamp = none;
  spec = sample_spec;
  status = sample_status;
}

abbrev pub listed : String → List Pod
listed role =
    if role == "master"
    then master_pod ∷ []
    else if role == "replica"
    then replica_pod ∷ []
    else master_pod ∷ replica_pod ∷ []

-- Every call succeeds.
abbrev pub sample_env : Env
sample_env = record {
  get_pod = λ h namespace name. ok master_pod;
  get_dragonfly = λ h namespace name. ok sample_df;
  get_stateful_set = λ h namespace name. ok sample_stateful_set;
  list_pods = λ h namespace labels. ok (listed (lookup_text role_label_key labels));
  patch_pod = λ h before after. ok after;
  patch_pod_status = λ h before after. ok after;
  delete_pod = λ h pod. ok tt;
  patch_dragonfly_status = λ h before after. ok after;
  get_object = λ h kind namespace name. err (answered true "not found");
  create_object = λ h object. ok tt;
  patch_object = λ h before after. ok tt;
  delete_budget = λ h namespace name. ok tt;
  now = λ h. 7;
  info = λ h ip section. ok "role:master\r\nloading:0\r\nmaster_link_status:up\r\n";
  ping = λ h ip. ok tt;
  slave_of = λ h ip host port. ok "OK";
  config_set = λ h ip key value. ok tt;
  repl_takeover = λ h ip timeout. ok "OK";
  client_list = λ h ip. ok "id=1 addr=10.9.9.9:4000 name=web\n";
  client_kill = λ h ip addr. ok tt;
}

-- The same, but every Dragonfly command that changes a role is refused.
abbrev pub refusing_env : Env
refusing_env = record sample_env {
  slave_of = λ h ip host port. ok "ERR";
  repl_takeover = λ h ip timeout. ok "ERR";
}

abbrev pub fresh : Instance
fresh = record { df = sample_df; clients = []; calls = [] }

-- `net.ParseIP(text).To4() != nil` on the addresses above.
abbrev pub is_ipv4 : String → Bool
is_ipv4 text = true
