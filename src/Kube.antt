-- ===== src/Kube.antt =====
-- The Kubernetes objects and the custom resource, with the fields that the controllers read
-- (api/v1alpha1/dragonfly_types.go), and the names of internal/resources/const.go.
pub mod Objects
pub mod Equality
use dragonfly_operator.Prelude.{ℕ, String, Bool, Option, List}
use dragonfly_operator.Prelude.Dict.{Dict}
use dragonfly_operator.Prelude.Int.{ℤ}
use dragonfly_operator.Kube.Objects.{
  Payload, Nilable, IntOrString, Container, EnvVar, Volume, VolumeMount, ClaimSpec,
}

abbrev pub role_label_key : String
role_label_key = "role"

abbrev pub master : String
master = "master"

abbrev pub replica : String
replica = "replica"

abbrev pub master_ip_label_key : String
master_ip_label_key = "master-ip"

abbrev pub master_ip_annotation_key : String
master_ip_annotation_key = "operator.dragonflydb.io/masterIP"

abbrev pub dragonfly_name_label_key : String
dragonfly_name_label_key = "app"

abbrev pub kubernetes_part_of_label_key : String
kubernetes_part_of_label_key = "app.kubernetes.io/part-of"

abbrev pub kubernetes_part_of : String
kubernetes_part_of = "dragonfly"

abbrev pub kubernetes_app_name_label_key : String
kubernetes_app_name_label_key = "app.kubernetes.io/name"

abbrev pub kubernetes_app_name : String
kubernetes_app_name = "dragonfly"

abbrev pub dragonfly_container_name : String
dragonfly_container_name = "dragonfly"

abbrev pub replication_ready_condition_type : String
replication_ready_condition_type = "dragonflydb.io/replication-ready"

abbrev pub dragonfly_admin_port : String
dragonfly_admin_port = "9999"

-- `appsv1.StatefulSetRevisionLabel`.
abbrev pub stateful_set_revision_label : String
stateful_set_revision_label = "controller-revision-hash"

pub record PodCondition : Type 0 where
  pub type : String
  pub status : String
  pub last_transition_time : ℕ

pub record ContainerStatus : Type 0 where
  pub name : String
  pub ready : Bool

-- `deletion_timestamp` is `none` where the pointer is nil, and `some 0` is Go's zero time.
pub record Pod : Type 0 where
  pub name : String
  pub namespace : String
  pub labels : Dict String
  pub annotations : Dict String
  pub deletion_timestamp : Option ℕ
  pub phase : String
  pub pod_ip : String
  pub conditions : List PodCondition
  pub container_statuses : List ContainerStatus

pub record StatefulSet : Type 0 where
  pub replicas : ℤ
  pub updated_replicas : ℤ
  pub update_revision : String

-- `dir` is empty where it is not given, like the other texts of the specification.
pub record Snapshot : Type 0 where
  pub dir : String
  pub cron : String
  pub enable_on_master_only : Bool
  pub persistent_volume_claim_spec : Option ClaimSpec
  pub existing_persistent_volume_claim_name : String

pub record MetadataSpec : Type 0 where
  pub annotations : Dict String
  pub labels : Dict String

pub record ServiceSpec : Type 0 where
  pub type : String
  pub name : String
  pub node_port : ℤ
  pub annotations : Dict String
  pub labels : Dict String

-- A key of a secret, with the rest of the selector.
pub record SecretKeySelector : Type 0 where
  pub name : String
  pub key : String
  pub others : Payload

pub record Authentication : Type 0 where
  pub password_from_secret : Option Payload
  pub client_ca_cert_secret : Option SecretKeySelector

pub record Tiering : Type 0 where
  pub persistent_volume_claim_spec : Option ClaimSpec

pub record PdbSpec : Type 0 where
  pub min_available : Option IntOrString
  pub max_unavailable : Option IntOrString

-- A pointer is `none` where it is nil. Secrets and config maps that are referred to by their name alone
-- are that name.
pub record DragonflySpec : Type 0 where
  pub replicas : ℤ
  pub pod_management_policy : String
  pub image : String
  pub image_pull_policy : String
  pub image_pull_secrets : Nilable Payload
  pub args : List String
  pub acl_from_secret : Option SecretKeySelector
  pub annotations : Dict String
  pub labels : Dict String
  pub pod_metadata : Option MetadataSpec
  pub env : List EnvVar
  pub additional_containers : List Container
  pub additional_volumes : List Volume
  pub additional_volume_mounts : List VolumeMount
  pub retention_policy : Option Payload
  pub resources : Option Payload
  pub affinity : Option Payload
  pub node_selector : Nilable Payload
  pub memcached_port : ℤ
  pub tolerations : Nilable Payload
  pub topology_spread_constraints : Nilable Payload
  pub authentication : Option Authentication
  pub container_security_context : Option Payload
  pub pod_security_context : Option Payload
  pub service_account_name : String
  pub priority_class_name : String
  pub tls_secret_ref : Option String
  pub tiering : Option Tiering
  pub snapshot : Option Snapshot
  pub skip_fs_group : Bool
  pub service_spec : Option ServiceSpec
  pub init_containers : List Container
  pub owned_objects_metadata : Option MetadataSpec
  pub enable_replication_readiness_gate : Bool
  pub pdb : Option PdbSpec
  pub custom_liveness_probe_config_map : Option String
  pub custom_readiness_probe_config_map : Option String
  pub custom_startup_probe_config_map : Option String

pub record DragonflyStatus : Type 0 where
  pub phase : String
  pub is_rolling_update : Bool

pub record Dragonfly : Type 0 where
  pub api_version : String
  pub kind : String
  pub name : String
  pub namespace : String
  pub uid : String
  pub deletion_timestamp : Option ℕ
  pub spec : DragonflySpec
  pub status : DragonflyStatus
