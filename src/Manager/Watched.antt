-- ===== src/Manager/Watched.antt =====
-- The pods that the operator gets to see: those of its cache (`cacheOptions` in cmd/main.go), those that
-- its requests list, and the events that pass the filter of the pod lifecycle controller
-- (internal/controller/dragonfly_pod_lifecycle_controller.go).
use dragonfly_operator.Prelude.{◌≡◌, refl, String, none, some, true, List, All}
use dragonfly_operator.Prelude.Dict.{Dict, lookup}
use dragonfly_operator.Kube.{Dragonfly, kubernetes_app_name_label_key, kubernetes_app_name}
use dragonfly_operator.Kube.Objects.{Object, stateful_set, service, disruption_budget, config}
use dragonfly_operator.Effects.Errors.{ok}
use dragonfly_operator.Resources.{check_spec, template_labels}
use dragonfly_operator.Instance.Queries.{instance_labels}
use dragonfly_operator.Resources.Safety.{template_labels-instance_labels}
use dragonfly_operator.Resources.Draft.{items}
use dragonfly_operator.Resources.Probes.{Scripts, generate_probe_config_map}
use dragonfly_operator.Resources.Service.{generate_service, generate_budget}
use dragonfly_operator.Resources.Generate.{generate_dragonfly_resources}
use dragonfly_operator.Resources.Outcome.{All-all_objects, generate_dragonfly_resources-FromDraft}
use dragonfly_operator.Resources.Selector.{after_snapshot-template_labels}
use dragonfly_operator.Reconcile.Lifecycle.Events.{
  update_event, create_event, delete_event, is_admitted,
}
use dragonfly_operator.Manager.{pod_cache_labels}

-- A pod with these labels has each of the wanted ones.
abbrev pub HasLabels : Dict String → Dict String → Type 0
HasLabels wanted labels =
    All (λ (label : String × String). lookup label.0 labels ≡ some label.1) wanted

-- A pod with these labels is listed for the instance and is in the cache, and its events pass the filter.
abbrev pub IsSeen : Dragonfly → Dict String → Dict String → Type 0
IsSeen df old labels =
    HasLabels (instance_labels df) labels
    × HasLabels pod_cache_labels labels
    × (is_admitted (create_event labels) ≡ true)
    × (is_admitted (update_event old labels) ≡ true)
    × (is_admitted (delete_event labels) ≡ true)

abbrev pub HasSeenPods : Dragonfly → Dict String → Object → Type 0
HasSeenPods df old (stateful_set meta spec) = IsSeen df old (items spec.template_labels)
HasSeenPods df old (service meta spec) = Unit
HasSeenPods df old (disruption_budget meta spec) = Unit
HasSeenPods df old (config meta entries binary_data) = Unit

is_admitted_lem :
    (old labels : Dict String)
    → lookup kubernetes_app_name_label_key labels ≡ some kubernetes_app_name
    → (is_admitted (create_event labels) ≡ true)
      × (is_admitted (update_event old labels) ≡ true)
      × (is_admitted (delete_event labels) ≡ true)
unfolding is_admitted
is_admitted_lem old labels e = rw e (refl, refl, refl)

template_labels-IsSeen :
    (df : Dragonfly) (old : Dict String)
    → check_spec df.spec ≡ none
    → IsSeen df old (template_labels df)
template_labels-IsSeen df old checked =
    let listed = template_labels-instance_labels df checked in
    let named = listed.1.1.0 in
    let (created, updated, deleted) = is_admitted_lem old (template_labels df) named in
    (listed, (named, tt), created, updated, deleted)

-- The pods of a generated stateful set, with the labels of its template, are listed for the instance, are
-- in the cache of the operator, and their creation, deletion and updates pass the event filter of the
-- pod lifecycle controller, whatever labels the spec asks for and whatever labels a pod had before the
-- update.
pub generate_dragonfly_resources-HasSeenPods :
    (scripts : Scripts) (df : Dragonfly) (image : String) (objects : List Object)
    (old : Dict String)
    → generate_dragonfly_resources scripts df image ≡ ok objects
    → All (HasSeenPods df old) objects
unfolding generate_service generate_budget generate_probe_config_map
generate_dragonfly_resources-HasSeenPods scripts df image objects old e =
    let found = generate_dragonfly_resources-FromDraft scripts df image objects e in
    rw (found.all) (
      All-all_objects (HasSeenPods df old) df (λ name key script. tt) scripts found.draft
        (rw (after_snapshot-template_labels df found.draft)
          (template_labels-IsSeen df old found.checked))
        tt tt)
