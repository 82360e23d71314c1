-- ===== src/Pods.antt =====
-- The tests on pods of internal/controller/util.go.
use dragonfly_operator.Prelude.{
  ℕ, String, Bool, true, false, not, ◌&&◌, Option, none, some, List, [], ◌∷◌, ◌==◌, nat_eq,
  if◌then◌else◌,
}
use dragonfly_operator.Prelude.Dict.{lookup}
use dragonfly_operator.Prelude.Int.{eq_ℤ}
use dragonfly_operator.Kube.{
  Pod, PodCondition, ContainerStatus, StatefulSet, role_label_key, master, replica,
  dragonfly_container_name, dragonfly_name_label_key, stateful_set_revision_label,
}

-- `if v, ok := labels[key]; ok && v == value`.
abbrev pub is_value : Option String → String → Bool
is_value none value = false
is_value (some v) value = v == value

unfoldable pub is_pod_on_latest_version : Pod → String → Bool
is_pod_on_latest_version pod update_revision =
    is_value (lookup stateful_set_revision_label pod.labels) update_revision

-- `none` is the error that no replica pod was found on the latest version.
unfoldable pub get_updated_replica : List Pod → String → Option Pod
get_updated_replica [] update_revision = none
get_updated_replica (replica ∷ replicas) update_revision =
    if is_pod_on_latest_version replica update_revision
    then some replica
    else get_updated_replica replicas update_revision

abbrev pub is_present : Option String → Bool
is_present none = false
is_present (some _) = true

unfoldable pub role_exists : Pod → Bool
role_exists pod = is_present (lookup role_label_key pod.labels)

unfoldable pub is_dragonfly_container_ready : List ContainerStatus → Bool
is_dragonfly_container_ready [] = false
is_dragonfly_container_ready (cs ∷ statuses) =
    if cs.name == dragonfly_container_name then cs.ready else is_dragonfly_container_ready statuses

-- The loop of `isReady` over the conditions: the first that passes answers by the containers.
unfoldable pub is_ready_by : List PodCondition → Pod → Bool
unfolding is_dragonfly_container_ready
is_ready_by [] pod = false
is_ready_by (c ∷ conditions) pod =
    if c.type == "ContainersReady" && c.status == "True" && not (pod.pod_ip == "")
    then is_dragonfly_container_ready pod.container_statuses
    else is_ready_by conditions pod

unfoldable pub is_ready : Pod → Bool
unfolding is_ready_by
is_ready pod = is_ready_by pod.conditions pod

unfoldable pub is_running_and_ready : Pod → Bool
is_running_and_ready pod = pod.phase == "Running" && is_ready pod

-- `DeletionTimestamp.IsZero()`.
abbrev pub is_zero_time : Option ℕ → Bool
is_zero_time none = true
is_zero_time (some t) = nat_eq t 0

unfoldable pub has_disruption_target : List PodCondition → Bool
has_disruption_target [] = false
has_disruption_target (c ∷ conditions) =
    if c.type == "DisruptionTarget" && c.status == "True"
    then true
    else has_disruption_target conditions

unfoldable pub is_terminating : Pod → Bool
is_terminating pod =
    if not (is_zero_time pod.deletion_timestamp) then true else has_disruption_target pod.conditions

unfoldable pub is_healthy : Pod → Bool
is_healthy pod = is_running_and_ready pod && not (is_terminating pod)

-- The loop of `needRollingUpdate`.
unfoldable pub has_outdated : List Pod → String → Bool
has_outdated [] update_revision = false
has_outdated (pod ∷ pods) update_revision =
    if not (is_pod_on_latest_version pod update_revision)
    then true
    else has_outdated pods update_revision

unfoldable pub need_rolling_update : List Pod → StatefulSet → Bool
unfolding has_outdated
need_rolling_update pods sts =
    if not (eq_ℤ sts.updated_replicas sts.replicas)
    then has_outdated pods sts.update_revision
    else false

-- `none` is the error that the label is missing.
unfoldable pub get_dragonfly_name : Pod → Option String
get_dragonfly_name pod = lookup dragonfly_name_label_key pod.labels

unfoldable pub is_master : Pod → Bool
is_master pod = is_value (lookup role_label_key pod.labels) master

unfoldable pub is_replica : Pod → Bool
is_replica pod = is_value (lookup role_label_key pod.labels) replica

-- `schema.GroupVersionKind`.
pub record GroupVersionKind : Type 0 where
  pub group : String
  pub version : String
  pub kind : String

-- `getGVK`, by the answer of `apiutil.GVKForObject`, where `none` is an error.
unfoldable pub get_gvk : Option GroupVersionKind → GroupVersionKind
get_gvk none = record { group = "Unknown"; version = "Unknown"; kind = "Unknown" }
get_gvk (some gvk) = gvk
