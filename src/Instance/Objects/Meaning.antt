-- ===== src/Instance/Objects/Meaning.antt =====
-- What the comparison of two objects decides (`resourceSpecsEqual` in
-- internal/controller/dragonfly_instance.go).
use dragonfly_operator.Prelude.{◌≡◌, refl, Bool, true, false, ◌&&◌, ◌↔◌}
use dragonfly_operator.Kube.Objects.{
  Object, ObjectMeta, StatefulSetSpec, ServiceObjectSpec, BudgetSpec, stateful_set, service,
  disruption_budget, config, meta_of,
}
use dragonfly_operator.Kube.Equality.{
  decided, nil_equal, claims_equal, without_maps, service_without_maps, budget_without_maps,
  stateful_set_equal, service_equal, budget_equal, StatefulSetSpec-discrete,
  ServiceObjectSpec-discrete, BudgetSpec-discrete,
}
use dragonfly_operator.Kube.Equality.Maps.{SameMap, nil_dict_equal_iff, and_true}
use dragonfly_operator.Instance.Objects.{metadata_equal, payload_equal, resource_specs_equal}

abbrev pub SameMetadata : ObjectMeta → ObjectMeta → Type 0
SameMetadata m n = SameMap m.labels n.labels × SameMap m.annotations n.annotations

-- The selector, the labels and annotations of the pods, and the claim templates.
abbrev pub SameMaps : StatefulSetSpec → StatefulSetSpec → Type 0
SameMaps a b =
    ((SameMap a.selector b.selector × SameMap a.template_labels b.template_labels)
      × SameMap a.template_annotations b.template_annotations)
    × (nil_equal claims_equal a.volume_claim_templates b.volume_claim_templates ≡ true)

-- The specifications are the same, or the data of config maps, which have no specification.
abbrev pub SamePayload : Object → Object → Type 0
SamePayload (config m a c) (config n b d) = SameMap a b
SamePayload (config m a c) b = Unit
SamePayload a (config n b d) = Unit
SamePayload (stateful_set m a) (stateful_set n b) = SameMaps a b × (without_maps a ≡ without_maps b)
SamePayload (service m a) (service n b) =
    SameMap a.selector b.selector × (service_without_maps a ≡ service_without_maps b)
SamePayload (disruption_budget m a) (disruption_budget n b) =
    SameMap a.selector b.selector × (budget_without_maps a ≡ budget_without_maps b)
SamePayload a b = ⊥

abbrev pub SameObject : Object → Object → Type 0
SameObject a b = SameMetadata (meta_of a) (meta_of b) × SamePayload a b

and_iff :
    {P Q : Type 0} (x y : Bool) → (x ≡ true) ↔ P → (y ≡ true) ↔ Q → ((x && y) ≡ true) ↔ (P × Q)
and_iff x y p q =
    (λ e. let (a, b) = and_true x y e in (p.0 a, q.0 b), λ h. rw (p.1 h.0, q.1 h.1) refl)

decided_iff {ℓ} : {A : Type ℓ} {x y : A} (d : Dec (x ≡ y)) → (decided d ≡ true) ↔ (x ≡ y)
decided_iff (yes p) = (λ e. p, λ e. refl)
decided_iff (no n) = (λ e. cc, λ e. absurd (n e))

true_iff : (b : Bool) → (b ≡ true) ↔ (b ≡ true)
true_iff b = (λ e. e, λ e. e)

metadata_equal_iff : (m n : ObjectMeta) → (metadata_equal m n ≡ true) ↔ SameMetadata m n
metadata_equal_iff m n =
    and_iff _ _ (nil_dict_equal_iff m.labels n.labels)
      (nil_dict_equal_iff m.annotations n.annotations)

stateful_set_equal_iff :
    (a b : StatefulSetSpec)
    → (stateful_set_equal a b ≡ true) ↔ (SameMaps a b × (without_maps a ≡ without_maps b))
unfolding stateful_set_equal
stateful_set_equal_iff a b =
    let selected = nil_dict_equal_iff a.selector b.selector in
    let labelled = nil_dict_equal_iff a.template_labels b.template_labels in
    let annotated = nil_dict_equal_iff a.template_annotations b.template_annotations in
    let claimed =
      true_iff (nil_equal claims_equal a.volume_claim_templates b.volume_claim_templates) in
    let maps = and_iff _ _ (and_iff _ _ (and_iff _ _ selected labelled) annotated) claimed in
    and_iff _ _ maps (decided_iff (StatefulSetSpec-discrete (without_maps a) (without_maps b)))

service_equal_iff :
    (a b : ServiceObjectSpec)
    → (service_equal a b ≡ true)
      ↔ (SameMap a.selector b.selector × (service_without_maps a ≡ service_without_maps b))
unfolding service_equal
service_equal_iff a b =
    and_iff _ _ (nil_dict_equal_iff a.selector b.selector)
      (decided_iff (ServiceObjectSpec-discrete (service_without_maps a) (service_without_maps b)))

budget_equal_iff :
    (a b : BudgetSpec)
    → (budget_equal a b ≡ true)
      ↔ (SameMap a.selector b.selector × (budget_without_maps a ≡ budget_without_maps b))
unfolding budget_equal
budget_equal_iff a b =
    and_iff _ _ (nil_dict_equal_iff a.selector b.selector)
      (decided_iff (BudgetSpec-discrete (budget_without_maps a) (budget_without_maps b)))

unlike : (false ≡ true) ↔ ⊥
unlike = (λ e. cc, λ h. elim h [ ])

unspecified : (true ≡ true) ↔ Unit {0}
unspecified = (λ e. tt, λ u. refl)

payload_equal_iff : (a b : Object) → (payload_equal a b ≡ true) ↔ SamePayload a b
payload_equal_iff (stateful_set m a) (stateful_set n b) = stateful_set_equal_iff a b
payload_equal_iff (service m a) (service n b) = service_equal_iff a b
payload_equal_iff (disruption_budget m a) (disruption_budget n b) = budget_equal_iff a b
payload_equal_iff (config m a c) (config n b d) = nil_dict_equal_iff a b
payload_equal_iff (stateful_set m a) (service n b) = unlike
payload_equal_iff (stateful_set m a) (disruption_budget n b) = unlike
payload_equal_iff (stateful_set m a) (config n b d) = unspecified
payload_equal_iff (service m a) (stateful_set n b) = unlike
payload_equal_iff (service m a) (disruption_budget n b) = unlike
payload_equal_iff (service m a) (config n b d) = unspecified
payload_equal_iff (disruption_budget m a) (stateful_set n b) = unlike
payload_equal_iff (disruption_budget m a) (service n b) = unlike
payload_equal_iff (disruption_budget m a) (config n b d) = unspecified
payload_equal_iff (config m a c) (stateful_set n b) = unspecified
payload_equal_iff (config m a c) (service n b) = unspecified
payload_equal_iff (config m a c) (disruption_budget n b) = unspecified

-- The comparison finds no change exactly if the two objects have the same labels, the same annotations
-- and the same payload: the data of two config maps, the specifications of two objects of another kind,
-- and anything for a config map and another object. Maps are compared as functions of the key, so that
-- the order of their entries does not matter, and nil is told from empty. The volume claim templates of
-- a stateful set are compared by claims_equal.
pub resource_specs_equal-SameObject :
    (desired existing : Object)
    → (resource_specs_equal desired existing ≡ true) ↔ SameObject desired existing
unfolding resource_specs_equal
resource_specs_equal-SameObject desired existing =
    and_iff _ _ (metadata_equal_iff (meta_of desired) (meta_of existing))
      (payload_equal_iff desired existing)
