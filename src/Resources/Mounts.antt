-- ===== src/Resources/Mounts.antt =====
-- The mounts of the generated pods (`GenerateDragonflyResources` in internal/resources/resources.go).
pub mod Pods
use dragonfly_operator.Prelude.{
  ◌≡◌, refl, String, Bool, true, false, Option, none, some, List, [], ◌∷◌, ◌==◌, if◌then◌else◌,
  eq_refl, arith,
}
use dragonfly_operator.Kube.{Dragonfly, DragonflySpec, Tiering, Snapshot, Authentication}
use dragonfly_operator.Kube.Objects.{
  Container, Volume, VolumeMount, PersistentVolumeClaim, PodSpec, StatefulSetSpec,
}
use dragonfly_operator.Effects.Errors.{Result, ok, err}
use dragonfly_operator.Resources.Draft.{
  Draft, with_main, with_pod, with_spec, add_args, add_mount, add_volume, add_claim,
}
use dragonfly_operator.Resources.Storage.{set_template_metadata}
use dragonfly_operator.Resources.Kept.{Kept}
use dragonfly_operator.Resources.Backing.{IsBacked, Backed-volume, Backed-claim}
use dragonfly_operator.Resources.Features.{
  add_readiness_gate, set_pod_management_policy, set_init_containers, set_pod_security_context,
  set_container_security_context, set_resources, add_memcached, add_acl, add_tiering_claim,
  add_tiering, add_features,
}

module _ (draft : Draft) (backed : IsBacked draft) where
  IsBacked-main :
      (main : Container)
      → main.volume_mounts ≡ draft.main.volume_mounts
      → IsBacked (with_main main draft)
  unfolding IsBacked
  IsBacked-main main e = rw e backed

  IsBacked-pod : (pod : PodSpec) → pod.volumes ≡ draft.pod.volumes → IsBacked (with_pod pod draft)
  unfolding IsBacked
  IsBacked-pod pod e = rw e backed

  IsBacked-spec :
      (spec : StatefulSetSpec)
      → spec.volume_claim_templates ≡ draft.spec.volume_claim_templates
      → IsBacked (with_spec spec draft)
  unfolding IsBacked
  IsBacked-spec spec e = rw e backed

  IsBacked-volume :
      (mount : VolumeMount) (volume : Volume)
      → (volume.name == mount.name) ≡ true
      → IsBacked (add_mount mount (add_volume volume draft))
  unfolding IsBacked
  IsBacked-volume mount volume e =
      Backed-volume draft.pod.volumes draft.spec.volume_claim_templates draft.main.volume_mounts
        mount volume e backed

  IsBacked-claim :
      (mount : VolumeMount) (template : PersistentVolumeClaim)
      → (template.name == mount.name) ≡ true
      → IsBacked (add_mount mount (add_claim template draft))
  unfolding IsBacked
  IsBacked-claim mount template e =
      Backed-claim draft.pod.volumes draft.spec.volume_claim_templates draft.main.volume_mounts
        mount template e backed

pub IsBacked-Kept : (df : Dragonfly) → Kept df IsBacked
unfolding set_template_metadata
IsBacked-Kept df = record {
  main = λ draft main e h. IsBacked-main draft h main e;
  pod = λ draft pod e h. IsBacked-pod draft h pod e;
  policy = λ draft policy h. IsBacked-spec draft h _ refl;
  metadata = λ draft h. IsBacked-spec draft h _ refl;
  volume = λ draft mount volume e h. IsBacked-volume draft h mount volume e;
  claim = λ draft mount template e h. IsBacked-claim draft h mount template e;
}
