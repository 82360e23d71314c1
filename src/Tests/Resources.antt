-- ===== src/Tests/Resources.antt =====
-- The theorems on the generated objects and their reconciliation at concrete inputs.
use dragonfly_operator.Prelude.{ap, sym, ◌≡◌, refl, ◌↔◌, true, none, some, List, [], ◌∷◌, All}
use dragonfly_operator.Prelude.Int.{pos, ltb_ℤ}
use dragonfly_operator.Kube.Objects.{Object, service}
use dragonfly_operator.Election.{get_ordinal}
use dragonfly_operator.Election.Bounds.{IsOrdinal, get_ordinal-IsOrdinal}
use dragonfly_operator.Effects.Errors.{Result, ok, err}
use dragonfly_operator.Effects.Clients.{is_open}
use dragonfly_operator.Effects.Within.{Grows}
use dragonfly_operator.Resources.{is_managed}
use dragonfly_operator.Resources.Probes.{Scripts, generated_meta}
use dragonfly_operator.Resources.Generate.{generate_dragonfly_resources}
use dragonfly_operator.Resources.Mounts.Pods.{HasMounts, generate_dragonfly_resources-HasMounts}
use dragonfly_operator.Resources.Selector.{
  SelectsItsPods, generate_dragonfly_resources-SelectsItsPods,
}
use dragonfly_operator.Resources.Validity.{IsAcceptable, generate_dragonfly_resources-IsAcceptable}
use dragonfly_operator.Resources.Ownership.{
  IsOwned, has_budget, generate_dragonfly_resources-IsOwned,
}
use dragonfly_operator.Instance.Objects.{resource_specs_equal, preserve_immutable, patched}
use dragonfly_operator.Instance.Objects.Meaning.{SameObject, resource_specs_equal-SameObject}
use dragonfly_operator.Instance.Objects.Settled.{
  fit_service, IsUnchanged, resource_specs_equal-patched, resource_specs_equal_refl,
}
use dragonfly_operator.Instance.Resources.{Setup, reconcile_resources}
use dragonfly_operator.Instance.Resources.Footprint.{
  only_objects, objects_of, IsReferring, reconcile_resources-only_objects,
}
use dragonfly_operator.Instance.Resources.Store.{key_of, same_key_refl}
use dragonfly_operator.Reconcile.Base.Clients.{NoneOpen}
use dragonfly_operator.Reconcile.Dragonfly.{reconcile_dragonfly}
use dragonfly_operator.Reconcile.Dragonfly.Clients.{reconcile_dragonfly-NoneOpen}
use dragonfly_operator.Manager.Watched.{HasSeenPods, generate_dragonfly_resources-HasSeenPods}
use dragonfly_operator.Manager.{Start}
use dragonfly_operator.Tests.World.{sample_df, sample_env, fresh, is_ipv4}

abbrev pub scripts : Scripts
scripts = record { liveness = "live"; readiness = "ready"; startup = "start" }

abbrev pub setup : Setup
setup = record {
  scripts = scripts;
  default_image = "";
  set_controller_reference = λ df object. ok object;
}

abbrev pub sample_objects : List Object
sample_objects = objects_of (generate_dragonfly_resources scripts sample_df "")

pub sample_generated : generate_dragonfly_resources scripts sample_df "" ≡ ok sample_objects
unfolding generate_dragonfly_resources is_managed
sample_generated = refl

generate_dragonfly_resources-HasMounts_example : All (HasMounts sample_df.spec) sample_objects
generate_dragonfly_resources-HasMounts_example =
    generate_dragonfly_resources-HasMounts scripts sample_df "" sample_objects sample_generated

generate_dragonfly_resources-SelectsItsPods_example : All SelectsItsPods sample_objects
generate_dragonfly_resources-SelectsItsPods_example =
    generate_dragonfly_resources-SelectsItsPods scripts sample_df "" sample_objects sample_generated

generate_dragonfly_resources-IsOwned_example :
    All (IsOwned sample_df) sample_objects
    × (has_budget sample_objects ≡ ltb_ℤ (pos 1) sample_df.spec.replicas)
generate_dragonfly_resources-IsOwned_example =
    generate_dragonfly_resources-IsOwned scripts sample_df "" sample_objects sample_generated

generate_dragonfly_resources-IsAcceptable_example :
    ((objects : List Object) × (generate_dragonfly_resources scripts sample_df "" ≡ ok objects))
    ↔ IsAcceptable sample_df.spec
generate_dragonfly_resources-IsAcceptable_example =
    generate_dragonfly_resources-IsAcceptable scripts sample_df ""

-- A service with the port of a node, and the same as the cluster holds it.
abbrev desired_service : Object
desired_service = service (generated_meta sample_df "df") (record {
  selector = some (("app", "df") ∷ []);
  ports = some (
      record { name = "redis"; port = pos 6379; node_port = pos 0; others = "" }
      ∷ record { name = "memcached"; port = pos 11211; node_port = pos 0; others = "" }
      ∷ []);
  type = "NodePort";
  cluster_ip = "";
  ip_families = none;
  ip_family_policy = none;
  external_traffic_policy = "";
  health_check_node_port = pos 0;
  load_balancer_class = none;
  others = "";
})

abbrev existing_service : Object
existing_service = service (generated_meta sample_df "df") (record {
  selector = some (("app", "other") ∷ []);
  ports =
      some (record { name = "redis"; port = pos 6379; node_port = pos 30001; others = "" } ∷ []);
  type = "NodePort";
  cluster_ip = "10.1.1.1";
  ip_families = some "IPv4";
  ip_family_policy = some "SingleStack";
  external_traffic_policy = "Cluster";
  health_check_node_port = pos 0;
  load_balancer_class = none;
  others = "";
})

resource_specs_equal-patched_example :
    IsUnchanged desired_service
      (patched (preserve_immutable desired_service existing_service) existing_service)
resource_specs_equal-patched_example =
    resource_specs_equal-patched desired_service existing_service
      (fit_service ((refl, tt), (tt, tt)))

abbrev or_object : Object → Result Object → Object
or_object other (ok object) = object
or_object other (err e) = other

setup-IsReferring : IsReferring setup
setup-IsReferring = record {
  kept = λ df desired owned e.
      let same : owned ≡ desired = ap (or_object desired) (sym e) in
      rw same (same_key_refl (key_of desired), resource_specs_equal_refl desired);
}

reconcile_resources-only_objects_example :
    Grows
      (only_objects
        (objects_of (generate_dragonfly_resources setup.scripts sample_df setup.default_image)))
      []
      (reconcile_resources sample_env setup fresh).1.calls
reconcile_resources-only_objects_example =
    reconcile_resources-only_objects sample_env setup setup-IsReferring fresh

get_ordinal-IsOrdinal_example : IsOrdinal (get_ordinal "my-df-2")
get_ordinal-IsOrdinal_example = get_ordinal-IsOrdinal "my-df-2"

reconcile_dragonfly-NoneOpen_example :
    NoneOpen (reconcile_dragonfly sample_env is_ipv4 setup "default" "df" []).1
unfolding is_open
reconcile_dragonfly-NoneOpen_example =
    reconcile_dragonfly-NoneOpen sample_env is_ipv4 setup "default" "df" [] (λ ip. refl)

abbrev sample_start : Start
sample_start = record {
  watch_current_namespace = true;
  watch_namespace = some "";
  pod_namespace = " ";
  service_account_namespace = some "cache\n";
  kube_config = none;
}

resource_specs_equal-SameObject_example :
    (resource_specs_equal desired_service existing_service ≡ true)
    ↔ SameObject desired_service existing_service
resource_specs_equal-SameObject_example =
    resource_specs_equal-SameObject desired_service existing_service

generate_dragonfly_resources-HasSeenPods_example : All (HasSeenPods sample_df []) sample_objects
generate_dragonfly_resources-HasSeenPods_example =
    generate_dragonfly_resources-HasSeenPods scripts sample_df "" sample_objects [] sample_generated
