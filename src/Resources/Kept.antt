-- ===== src/Resources/Kept.antt =====
-- Predicates of the draft that the blocks of `GenerateDragonflyResources` keep
-- (internal/resources/resources.go).
pub mod Steps
use dragonfly_operator.Prelude.{
  ◌≡◌, refl, String, Bool, true, false, Option, none, some, List, [], ◌∷◌, ◌==◌, if◌then◌else◌,
  eq_refl, arith,
}
use dragonfly_operator.Kube.{Dragonfly, DragonflySpec, Tiering, Snapshot, Authentication}
use dragonfly_operator.Kube.Objects.{
  Container, Volume, VolumeMount, PersistentVolumeClaim, PodSpec, StatefulSetSpec,
}
use dragonfly_operator.Effects.Errors.{Result, ok, err}
use dragonfly_operator.Resources.Draft.{
  Draft, with_main, with_pod, with_spec, add_args, add_mount, add_volume, add_claim,
}
use dragonfly_operator.Resources.Features.{
  tiering_claim, add_readiness_gate, set_pod_management_policy, set_init_containers,
  set_pod_security_context, set_container_security_context, set_resources, add_memcached, add_acl,
  add_tiering_claim, add_tiering, add_features,
}
use dragonfly_operator.Resources.Storage.{
  add_snapshot_claim, add_existing_claim, snapshot_args, add_tls, set_template_metadata,
  set_placement, add_password, add_client_ca, add_authentication,
}
use dragonfly_operator.Resources.Probes.{append_probe_volumes_and_mounts, set_probes}

-- What a predicate has to allow, so that every block keeps it.
pub record Kept {κ} (df : Dragonfly) (P : Draft → Type κ) : Type κ where
  pub main :
      (draft : Draft) (main : Container)
      → main.volume_mounts ≡ draft.main.volume_mounts
      → P draft
      → P (with_main main draft)
  pub pod :
      (draft : Draft) (pod : PodSpec)
      → pod.volumes ≡ draft.pod.volumes
      → P draft
      → P (with_pod pod draft)
  pub policy :
      (draft : Draft) (policy : String)
      → P draft
      → P (with_spec (record (draft.spec) { pod_management_policy = policy }) draft)
  pub metadata : (draft : Draft) → P draft → P (set_template_metadata df draft)
  pub volume :
      (draft : Draft) (mount : VolumeMount) (volume : Volume)
      → (volume.name == mount.name) ≡ true
      → P draft
      → P (add_mount mount (add_volume volume draft))
  pub claim :
      (draft : Draft) (mount : VolumeMount) (template : PersistentVolumeClaim)
      → (template.name == mount.name) ≡ true
      → P draft
      → P (add_mount mount (add_claim template draft))
