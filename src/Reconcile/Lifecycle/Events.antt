-- ===== src/Reconcile/Lifecycle/Events.antt =====
-- The event filter of the pod lifecycle controller (`SetupWithManager` in
-- internal/controller/dragonfly_pod_lifecycle_controller.go).
use dragonfly_operator.Prelude.{String, Bool}
use dragonfly_operator.Prelude.Dict.{Dict, lookup}
use dragonfly_operator.Kube.{kubernetes_app_name_label_key, kubernetes_app_name}
use dragonfly_operator.Pods.{is_value}

-- The events of a watched pod, by its labels.
pub data Event : Type 0 where
  update_event : (old_labels new_labels : Dict String) → Event
  create_event : (labels : Dict String) → Event
  delete_event : (labels : Dict String) → Event

abbrev pub is_dragonfly : Dict String → Bool
is_dragonfly labels = is_value (lookup kubernetes_app_name_label_key labels) kubernetes_app_name

-- An update is judged by the new object alone.
unfoldable pub is_admitted : Event → Bool
is_admitted (update_event old_labels new_labels) = is_dragonfly new_labels
is_admitted (create_event labels) = is_dragonfly labels
is_admitted (delete_event labels) = is_dragonfly labels
