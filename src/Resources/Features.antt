-- ===== src/Resources/Features.antt =====
-- The blocks of `GenerateDragonflyResources` that add optional parts to the stateful set, up to its
-- storage (internal/resources/resources.go).
use dragonfly_operator.Prelude.{ℕ, String, ◌<>◌, none, some, [], ◌∷◌, if◌then◌else◌}
use dragonfly_operator.Prelude.Int.{pos, eq_ℤ}
use dragonfly_operator.Text.{is_empty}
use dragonfly_operator.Text.Decimal.{decimal_ℤ}
use dragonfly_operator.Kube.{Dragonfly, DragonflySpec, Tiering, replication_ready_condition_type}
use dragonfly_operator.Kube.Objects.{ClaimSpec, PersistentVolumeClaim, fs_group, given}
use dragonfly_operator.Resources.{generate_resource_labels, generate_resource_annotations}
use dragonfly_operator.Resources.Names.{
  memcached_port_name, memcached_port_arg, acl_volume_name, acl_dir, acl_file_name, acl_file_arg,
}
use dragonfly_operator.Resources.Draft.{
  Draft, with_main, with_pod, with_spec, add_args, add_port, add_mount, add_volume, add_claim,
  mount_at, secret_file,
}

-- `fmt.Sprintf("%s=%s/%s", arg, dir, file)`
abbrev pub path_arg : String → String → String → String
path_arg arg dir file = arg <> "=" <> dir <> "/" <> file

unfoldable pub add_readiness_gate : DragonflySpec → Draft → Draft
add_readiness_gate spec draft =
    if spec.enable_replication_readiness_gate
    then with_pod
        (record (draft.pod) { readiness_gates = some (replication_ready_condition_type ∷ []) })
        draft
    else draft

unfoldable pub set_pod_management_policy : DragonflySpec → Draft → Draft
set_pod_management_policy spec draft =
    if is_empty spec.pod_management_policy
    then draft
    else with_spec (record (draft.spec) { pod_management_policy = spec.pod_management_policy })
        draft

unfoldable pub set_init_containers : DragonflySpec → Draft → Draft
set_init_containers spec draft = elim spec.init_containers [
  | [] ↦ draft
  | container ∷ containers ↦
      with_pod (record (draft.pod) { init_containers = some (container ∷ containers) }) draft
]

abbrev pub dfly_user_group : ℕ
dfly_user_group = 999

-- The group of the file system, unless it is skipped or the context is given.
unfoldable pub set_pod_security_context : DragonflySpec → Draft → Draft
set_pod_security_context spec draft = elim spec.pod_security_context [
  | none ↦
      if spec.skip_fs_group
      then draft
      else with_pod (record (draft.pod) { security_context = some (fs_group dfly_user_group) })
          draft
  | some context ↦ with_pod (record (draft.pod) { security_context = some (given context) }) draft
]

unfoldable pub set_container_security_context : DragonflySpec → Draft → Draft
set_container_security_context spec draft = elim spec.container_security_context [
  | none ↦ draft
  | some context ↦ with_main (record (draft.main) { security_context = some context }) draft
]

unfoldable pub set_resources : DragonflySpec → Draft → Draft
set_resources spec draft = elim spec.resources [
  | none ↦ draft
  | some resources ↦ with_main (record (draft.main) { resources = resources }) draft
]

unfoldable pub add_memcached : DragonflySpec → Draft → Draft
unfolding decimal_ℤ
add_memcached spec draft =
    if eq_ℤ spec.memcached_port (pos 0)
    then draft
    else add_port
        (record { name = memcached_port_name; container_port = spec.memcached_port; others = "" })
        (add_args ((memcached_port_arg <> "=" <> decimal_ℤ spec.memcached_port) ∷ []) draft)

unfoldable pub add_acl : DragonflySpec → Draft → Draft
add_acl spec draft = elim spec.acl_from_secret [
  | none ↦ draft
  | some acl ↦ add_args (path_arg acl_file_arg acl_dir acl_file_name ∷ []) (
      add_mount (mount_at acl_volume_name acl_dir)
        (add_volume (secret_file acl_volume_name acl.name acl.key acl_file_name) draft))
]

abbrev pub tiering_volume_name : String
tiering_volume_name = "tiering"

abbrev pub tiering_mount_name : String
tiering_mount_name = "/dragonfly/tiering"

abbrev pub tiering_dir_name : String
tiering_dir_name = "vol"

unfoldable pub tiering_claim : Dragonfly → ClaimSpec → PersistentVolumeClaim
unfolding generate_resource_labels generate_resource_annotations
tiering_claim df spec = record {
  name = tiering_volume_name;
  labels = some (generate_resource_labels df);
  annotations = some (generate_resource_annotations df);
  spec = spec;
  others = "";
}

unfoldable pub add_tiering_claim : Dragonfly → Tiering → Draft → Draft
add_tiering_claim df tiering draft = elim tiering.persistent_volume_claim_spec [
  | none ↦ draft
  | some spec ↦
      add_mount (mount_at tiering_volume_name tiering_mount_name)
        (add_claim (tiering_claim df spec) draft)
]

unfoldable pub add_tiering : Dragonfly → Draft → Draft
unfolding add_tiering_claim
add_tiering df draft = elim df.spec.tiering [
  | none ↦ draft
  | some tiering ↦
      add_args (path_arg "--tiered_prefix" tiering_mount_name tiering_dir_name ∷ [])
        (add_tiering_claim df tiering draft)
]

-- The blocks in their order.
unfoldable pub add_features : Dragonfly → Draft → Draft
unfolding add_readiness_gate set_pod_management_policy set_init_containers set_pod_security_context
add_features df draft =
    let spec = df.spec in
    add_tiering df (
      add_acl spec (
        add_memcached spec (
          add_args spec.args (
            set_resources spec (
              set_container_security_context spec (
                set_pod_security_context spec (
                  set_init_containers spec
                    (set_pod_management_policy spec (add_readiness_gate spec draft)))))))))
