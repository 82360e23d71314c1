-- ===== src/Kube/Objects.antt =====
-- The Kubernetes objects that the operator generates, with the fields that it writes or compares.
use dragonfly_operator.Prelude.{ℕ, String, Bool, Option, List}
use dragonfly_operator.Prelude.Dict.{Dict}
use dragonfly_operator.Prelude.Int.{ℤ}

-- A value that the operator copies or compares and does not look into, as one text. The field `others`
-- of an object is one for all the fields that the operator leaves unset; its text is then empty.
abbrev pub Payload : Type 0
Payload = String

-- A Go slice or map: `none` is nil.
abbrev pub Nilable {ℓ} : Type ℓ → Type ℓ
Nilable A = Option A

-- `int` and `string` of `intstr.IntOrString`.
pub data IntOrString : Type 0 where
  int : ℤ → IntOrString
  string : String → IntOrString

pub record Owner : Type 0 where
  pub api_version : String
  pub kind : String
  pub name : String
  pub uid : String

pub record ObjectMeta : Type 0 where
  pub name : String
  pub namespace : String
  pub owners : List Owner
  pub labels : Nilable (Dict String)
  pub annotations : Nilable (Dict String)
  pub others : Payload

pub record KeyToPath : Type 0 where
  pub key : String
  pub path : String

pub data VolumeSource : Type 0 where
  config_map : String → Payload → VolumeSource
  secret : String → Nilable (List KeyToPath) → Payload → VolumeSource
  claim : String → Payload → VolumeSource
  other_source : Payload → VolumeSource

pub record Volume : Type 0 where
  pub name : String
  pub source : VolumeSource

pub record VolumeMount : Type 0 where
  pub name : String
  pub mount_path : String
  pub sub_path : String
  pub read_only : Bool
  pub others : Payload

pub data EnvSource : Type 0 where
  secret_key_ref : Payload → EnvSource
  other_ref : Payload → EnvSource

pub record EnvVar : Type 0 where
  pub name : String
  pub value : String
  pub value_from : Option EnvSource

pub record ContainerPort : Type 0 where
  pub name : String
  pub container_port : ℤ
  pub others : Payload

-- A probe by a command.
pub record Probe : Type 0 where
  pub command : List String
  pub failure_threshold : ℕ
  pub initial_delay_seconds : ℕ
  pub period_seconds : ℕ
  pub success_threshold : ℕ
  pub timeout_seconds : ℕ
  pub others : Payload

pub record Container : Type 0 where
  pub name : String
  pub image : String
  pub ports : Nilable (List ContainerPort)
  pub args : Nilable (List String)
  pub env : Nilable (List EnvVar)
  pub readiness_probe : Option Probe
  pub liveness_probe : Option Probe
  pub startup_probe : Option Probe
  pub image_pull_policy : String
  pub security_context : Option Payload
  pub resources : Payload
  pub volume_mounts : Nilable (List VolumeMount)
  pub others : Payload

pub data PodSecurityContext : Type 0 where
  fs_group : ℕ → PodSecurityContext
  given : Payload → PodSecurityContext

pub record PodSpec : Type 0 where
  pub image_pull_secrets : Nilable Payload
  pub enable_service_links : Option Bool
  pub containers : Nilable (List Container)
  pub init_containers : Nilable (List Container)
  pub readiness_gates : Nilable (List String)
  pub security_context : Option PodSecurityContext
  pub affinity : Option Payload
  pub node_selector : Nilable Payload
  pub tolerations : Nilable Payload
  pub topology_spread_constraints : Nilable Payload
  pub service_account_name : String
  pub priority_class_name : String
  pub volumes : Nilable (List Volume)
  pub others : Payload

-- `PersistentVolumeClaimSpec`, where the default of `volumeMode` matters.
pub record ClaimSpec : Type 0 where
  pub volume_mode : Option String
  pub others : Payload

pub record PersistentVolumeClaim : Type 0 where
  pub name : String
  pub labels : Nilable (Dict String)
  pub annotations : Nilable (Dict String)
  pub spec : ClaimSpec
  pub others : Payload

pub record StatefulSetSpec : Type 0 where
  pub replicas : Option ℤ
  pub service_name : String
  pub selector : Nilable (Dict String)
  pub update_strategy : String
  pub template_labels : Nilable (Dict String)
  pub template_annotations : Nilable (Dict String)
  pub pod : PodSpec
  pub volume_claim_templates : Nilable (List PersistentVolumeClaim)
  pub pod_management_policy : String
  pub retention_policy : Option Payload
  pub others : Payload

pub record ServicePort : Type 0 where
  pub name : String
  pub port : ℤ
  pub node_port : ℤ
  pub others : Payload

pub record ServiceObjectSpec : Type 0 where
  pub selector : Nilable (Dict String)
  pub ports : Nilable (List ServicePort)
  pub type : String
  pub cluster_ip : String
  pub ip_families : Nilable Payload
  pub ip_family_policy : Option String
  pub external_traffic_policy : String
  pub health_check_node_port : ℤ
  pub load_balancer_class : Option String
  pub others : Payload

pub record BudgetSpec : Type 0 where
  pub selector : Nilable (Dict String)
  pub min_available : Option IntOrString
  pub max_unavailable : Option IntOrString
  pub others : Payload

-- `client.Object`, for the kinds that are generated.
pub data Object : Type 0 where
  stateful_set : ObjectMeta → StatefulSetSpec → Object
  service : ObjectMeta → ServiceObjectSpec → Object
  disruption_budget : ObjectMeta → BudgetSpec → Object
  config : ObjectMeta → Nilable (Dict String) → Payload → Object

abbrev pub meta_of : Object → ObjectMeta
meta_of (stateful_set meta spec) = meta
meta_of (service meta spec) = meta
meta_of (disruption_budget meta spec) = meta
meta_of (config meta data_of binary_data) = meta

abbrev pub with_meta : ObjectMeta → Object → Object
with_meta meta (stateful_set m spec) = stateful_set meta spec
with_meta meta (service m spec) = service meta spec
with_meta meta (disruption_budget m spec) = disruption_budget meta spec
with_meta meta (config m data_of binary_data) = config meta data_of binary_data
