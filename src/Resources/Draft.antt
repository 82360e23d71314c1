-- ===== src/Resources/Draft.antt =====
-- The stateful set in the making, and what the blocks of `GenerateDragonflyResources` append to it
-- (internal/resources/resources.go).
use dragonfly_operator.Prelude.{String, false, none, some, List, [], ◌∷◌, ◌++◌}
use dragonfly_operator.Kube.Objects.{
  Nilable, Container, ContainerPort, EnvVar, PodSpec, Volume, secret, VolumeMount,
  PersistentVolumeClaim, StatefulSetSpec,
}

-- `Containers[0]`, the rest of the pods' specification, and the rest of the stateful set's; the fields
-- `containers` and `pod` of these are filled in at the end.
pub record Draft : Type 0 where
  pub main : Container
  pub pod : PodSpec
  pub spec : StatefulSetSpec

module _ {ℓ} {A : Type ℓ} where
  -- `append(xs, ys...)`
  abbrev pub append : Nilable (List A) → List A → Nilable (List A)
  append xs [] = xs
  append none (y ∷ ys) = some (y ∷ ys)
  append (some xs) (y ∷ ys) = some (xs ++ y ∷ ys)

  -- What a loop over the slice visits.
  abbrev pub items : Nilable (List A) → List A
  items none = []
  items (some xs) = xs

abbrev pub with_main : Container → Draft → Draft
with_main main draft = record draft { main = main }

abbrev pub with_pod : PodSpec → Draft → Draft
with_pod pod draft = record draft { pod = pod }

abbrev pub with_spec : StatefulSetSpec → Draft → Draft
with_spec spec draft = record draft { spec = spec }

abbrev pub add_args : List String → Draft → Draft
add_args args draft = with_main (record (draft.main) { args = append draft.main.args args }) draft

abbrev pub add_port : ContainerPort → Draft → Draft
add_port port draft =
    with_main (record (draft.main) { ports = append draft.main.ports (port ∷ []) }) draft

abbrev pub add_env : EnvVar → Draft → Draft
add_env variable draft =
    with_main (record (draft.main) { env = append draft.main.env (variable ∷ []) }) draft

abbrev pub add_mount : VolumeMount → Draft → Draft
add_mount mount draft =
    with_main (record (draft.main) { volume_mounts = append draft.main.volume_mounts (mount ∷ []) })
      draft

abbrev pub add_volume : Volume → Draft → Draft
add_volume volume draft =
    with_pod (record (draft.pod) { volumes = append draft.pod.volumes (volume ∷ []) }) draft

abbrev pub add_claim : PersistentVolumeClaim → Draft → Draft
add_claim template draft =
    with_spec
      (record (draft.spec) {
        volume_claim_templates = append draft.spec.volume_claim_templates (template ∷ []);
      })
      draft

-- A mount with the other fields unset.
abbrev pub mount_at : String → String → VolumeMount
mount_at name path = record {
  name = name;
  mount_path = path;
  sub_path = "";
  read_only = false;
  others = "";
}

-- One key of a secret as a file.
abbrev pub secret_file : String → String → String → String → Volume
secret_file name secret_name key path = record {
  name = name;
  source = secret secret_name (some (record { key = key; path = path } ∷ [])) "";
}
