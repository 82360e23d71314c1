-- ===== src/Instance/Objects/Settled.antt =====
-- An object after its patch (`reconcileResources`, `resourceSpecsEqual` and `copyDesiredPayload` in
-- internal/controller/dragonfly_instance.go).
use dragonfly_operator.Prelude.{◌≡◌, refl, String, true, ◌&&◌, ◌==◌, Bool-cases, inl, inr}
use dragonfly_operator.Kube.Objects.{
  Nilable, Object, Payload, BudgetSpec, ObjectMeta, StatefulSetSpec, ServiceObjectSpec,
  stateful_set, service, disruption_budget, config,
}
use dragonfly_operator.Prelude.Dict.{Dict}
use dragonfly_operator.Kube.Equality.{dict_equal, nil_equal}
use dragonfly_operator.Kube.Equality.Laws.{
  nil_dict_equal_refl, stateful_set_equal_refl, service_equal_same, budget_equal_refl,
}
use dragonfly_operator.Instance.Objects.{
  preserve_immutable, preserve_service, preserve_stateful_set, resource_specs_equal, patched,
}
use dragonfly_operator.Kube.Equality.Laws.{
  nil_dict_equal_refl, stateful_set_equal_refl, service_equal_refl, budget_equal_refl,
}
use dragonfly_operator.Instance.Objects.Ports.{HasDistinctPorts, preserve_ports-idempotent}

-- The two are of the same kind, and the ports of a service have different names.
pub data Fits : Object → Object → Type 0 where
  fit_stateful_set :
      {m n : ObjectMeta} {a b : StatefulSetSpec} → Fits (stateful_set m a) (stateful_set n b)
  fit_service :
      {m n : ObjectMeta} {a b : ServiceObjectSpec}
      → HasDistinctPorts a.ports
      → Fits (service m a) (service n b)
  fit_budget :
      {m n : ObjectMeta} {a b : BudgetSpec} → Fits (disruption_budget m a) (disruption_budget n b)
  fit_config :
      {m n : ObjectMeta} {a b : Nilable (Dict String)} {c d : Payload}
      → Fits (config m a c) (config n b d)

preserve_service-idempotent :
    (desired existing : ServiceObjectSpec)
    → HasDistinctPorts desired.ports
    → preserve_service desired (preserve_service desired existing)
      ≡ preserve_service desired existing
unfolding preserve_service
preserve_service-idempotent desired existing d =
    let ports = preserve_ports-idempotent desired.ports existing.ports d in
    elim (Bool-cases (desired.type == "LoadBalancer")) [
      | inl balances ↦ elim (Bool-cases (existing.external_traffic_policy == "Local")) [
        | inl local ↦ elim (Bool-cases (desired.type == "NodePort")) [
          | inl node ↦ rw (node, balances, local, ports) refl
          | inr node ↦ rw (node, balances, local, ports) refl
        ]
        | inr local ↦ elim (Bool-cases (desired.type == "NodePort")) [
          | inl node ↦ rw (node, balances, local, ports) refl
          | inr node ↦ rw (node, balances, local, ports) refl
        ]
      ]
      | inr balances ↦ elim (Bool-cases (desired.type == "NodePort")) [
        | inl node ↦ rw (node, balances, ports) refl
        | inr node ↦ rw (node, balances) refl
      ]
    ]

pub metadata_equal_refl :
    (m : ObjectMeta)
    → (nil_equal dict_equal m.labels m.labels && nil_equal dict_equal m.annotations m.annotations)
      ≡ true
metadata_equal_refl m = rw (nil_dict_equal_refl m.labels, nil_dict_equal_refl m.annotations) refl

-- The comparison finds no change that would be patched.
abbrev pub IsUnchanged : Object → Object → Type 0
IsUnchanged desired existing =
    resource_specs_equal (preserve_immutable desired existing) existing ≡ true

-- An object that the API server holds as the patch left it is found unchanged by the next comparison, so
-- that it is not patched again.
pub resource_specs_equal-patched :
    (desired existing : Object)
    → Fits desired existing
    → IsUnchanged desired (patched (preserve_immutable desired existing) existing)
unfolding resource_specs_equal patched preserve_immutable
resource_specs_equal-patched desired existing (fit_stateful_set {m} {n} {a} {b}) =
    rw (metadata_equal_refl m) (stateful_set_equal_refl (preserve_stateful_set a b))
resource_specs_equal-patched desired existing (fit_service {m} {n} {a} {b} d) =
    rw (metadata_equal_refl m)
      (service_equal_same _ (preserve_service a b) (preserve_service-idempotent a b d))
resource_specs_equal-patched desired existing (fit_budget {m} {n} {a} {b}) =
    rw (metadata_equal_refl m) (budget_equal_refl a)
resource_specs_equal-patched desired existing (fit_config {m} {n} {a} {b} {c} {d}) =
    rw (metadata_equal_refl m) (nil_dict_equal_refl a)

pub resource_specs_equal_refl : (object : Object) → resource_specs_equal object object ≡ true
unfolding resource_specs_equal
resource_specs_equal_refl (stateful_set m a) =
    rw (metadata_equal_refl m) (stateful_set_equal_refl a)
resource_specs_equal_refl (service m a) = rw (metadata_equal_refl m) (service_equal_refl a)
resource_specs_equal_refl (disruption_budget m a) = rw (metadata_equal_refl m) (budget_equal_refl a)
resource_specs_equal_refl (config m a c) = rw (metadata_equal_refl m) (nil_dict_equal_refl a)
