-- ===== src/Resources/Probes.antt =====
-- The custom probes of the pods and the config maps of their scripts (internal/resources/resources.go).
use dragonfly_operator.Prelude.{
  String, ◌<>◌, Bool, false, not, ◌||◌, Option, none, some, List, [], ◌∷◌, ◌++◌, if◌then◌else◌,
}
use dragonfly_operator.Text.{is_empty}
use dragonfly_operator.Kube.{Dragonfly}
use dragonfly_operator.Kube.Objects.{
  Container, Probe, Object, ObjectMeta, Owner, config, config_map,
}
use dragonfly_operator.Resources.{generate_resource_labels, generate_resource_annotations}
use dragonfly_operator.Resources.Names.{
  liveness_probe_config_map_suffix, readiness_probe_config_map_suffix,
  startup_probe_config_map_suffix, liveness_script_key, readiness_script_key, startup_script_key,
  probe_mount_path, liveness_probe_volume_name, readiness_probe_volume_name,
  startup_probe_volume_name,
}
use dragonfly_operator.Resources.Draft.{Draft, with_main, add_mount, add_volume}

-- `custom != nil && custom.Name != ""`
abbrev pub is_custom : Option String → Bool
is_custom none = false
is_custom (some name) = not (is_empty name)

unfoldable pub has_custom_probes : Dragonfly → Bool
has_custom_probes df =
    is_custom df.spec.custom_liveness_probe_config_map
    || is_custom df.spec.custom_readiness_probe_config_map
    || is_custom df.spec.custom_startup_probe_config_map

abbrev default_name : String → String → String
default_name df_name suffix = df_name <> "-" <> suffix

unfoldable pub probe_config_map_name : String → String → Option String → String
probe_config_map_name df_name suffix none = default_name df_name suffix
probe_config_map_name df_name suffix (some name) =
    if is_empty name then default_name df_name suffix else name

-- A round of the loop of `appendProbeVolumesAndMounts`.
abbrev append_probe : String → String → String → Draft → Draft
append_probe volume_name config_map_name script_key draft =
    add_mount
      (record {
        name = volume_name;
        mount_path = probe_mount_path <> "/" <> script_key;
        sub_path = script_key;
        read_only = false;
        others = "";
      })
      (add_volume (record { name = volume_name; source = config_map config_map_name "" }) draft)

unfoldable pub append_probe_volumes_and_mounts : String → String → String → Draft → Draft
append_probe_volumes_and_mounts liveness_cm readiness_cm startup_cm draft =
    append_probe startup_probe_volume_name startup_cm startup_script_key (
      append_probe readiness_probe_volume_name readiness_cm readiness_script_key
        (append_probe liveness_probe_volume_name liveness_cm liveness_script_key draft))

abbrev pub owners : Dragonfly → List Owner
owners df =
    record { api_version = df.api_version; kind = df.kind; name = df.name; uid = df.uid } ∷ []

-- The metadata of a generated object.
unfoldable pub generated_meta : Dragonfly → String → ObjectMeta
unfolding generate_resource_labels generate_resource_annotations
generated_meta df name = record {
  name = name;
  namespace = df.namespace;
  owners = owners df;
  labels = some (generate_resource_labels df);
  annotations = some (generate_resource_annotations df);
  others = "";
}

unfoldable pub generate_probe_config_map : Dragonfly → String → String → String → Object
unfolding generated_meta
generate_probe_config_map df name key script =
    config (generated_meta df name) (some ((key, script) ∷ [])) ""

abbrev script_command : String → List String
script_command key = "/bin/sh" ∷ (probe_mount_path <> "/" <> key) ∷ []

abbrev set_command : List String → Option Probe → Option Probe
set_command command none = none
set_command command (some probe) = some (record probe { command = command })

abbrev startup_probe : Probe
startup_probe = record {
  command = script_command startup_script_key;
  failure_threshold = 60;
  initial_delay_seconds = 0;
  period_seconds = 5;
  success_threshold = 1;
  timeout_seconds = 5;
  others = "";
}

abbrev pub custom_container : Container → Container
custom_container main = record main {
  readiness_probe = set_command (script_command readiness_script_key) main.readiness_probe;
  liveness_probe = set_command (script_command liveness_script_key) main.liveness_probe;
  startup_probe = some startup_probe;
}

abbrev pub liveness_name : Dragonfly → String
liveness_name df =
    probe_config_map_name df.name liveness_probe_config_map_suffix
      df.spec.custom_liveness_probe_config_map

abbrev pub readiness_name : Dragonfly → String
readiness_name df =
    probe_config_map_name df.name readiness_probe_config_map_suffix
      df.spec.custom_readiness_probe_config_map

abbrev pub startup_name : Dragonfly → String
startup_name df =
    probe_config_map_name df.name startup_probe_config_map_suffix
      df.spec.custom_startup_probe_config_map

unfoldable pub set_probes : Dragonfly → Draft → Draft
unfolding append_probe_volumes_and_mounts has_custom_probes
set_probes df draft =
    if has_custom_probes df
    then append_probe_volumes_and_mounts (liveness_name df) (readiness_name df) (startup_name df)
        (with_main (custom_container draft.main) draft)
    else draft

-- The texts that scripts.go embeds.
pub record Scripts : Type 0 where
  pub liveness : String
  pub readiness : String
  pub startup : String

abbrev pub unless_custom : Option String → Object → List Object
unless_custom custom object = if is_custom custom then [] else object ∷ []

abbrev pub liveness_maps : Scripts → Dragonfly → List Object
liveness_maps scripts df =
    unless_custom df.spec.custom_liveness_probe_config_map
      (generate_probe_config_map df (liveness_name df) liveness_script_key scripts.liveness)

abbrev pub readiness_maps : Scripts → Dragonfly → List Object
readiness_maps scripts df =
    unless_custom df.spec.custom_readiness_probe_config_map
      (generate_probe_config_map df (readiness_name df) readiness_script_key scripts.readiness)

abbrev pub startup_maps : Scripts → Dragonfly → List Object
startup_maps scripts df =
    unless_custom df.spec.custom_startup_probe_config_map
      (generate_probe_config_map df (startup_name df) startup_script_key scripts.startup)

unfoldable pub probe_config_maps : Scripts → Dragonfly → List Object
unfolding has_custom_probes generate_probe_config_map
probe_config_maps scripts df =
    if has_custom_probes df
    then liveness_maps scripts df ++ (readiness_maps scripts df ++ startup_maps scripts df)
    else []
