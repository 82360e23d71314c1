-- ===== src/Kube/Equality.antt =====
-- Go's `reflect.DeepEqual` on the metadata and the specifications of the generated objects.
pub mod Laws
pub mod Maps
use native.Mathlib.Decide.{ℕ_discrete}
use dragonfly_operator.Prelude.{
  String, Bool, true, false, ◌&&◌, ◌==◌, ◌≡◌, refl, Option, none, some, List, [], ◌∷◌, eq_iff,
  arith, Bool-cases, inl, inr,
}
use dragonfly_operator.Prelude.Dict.{Dict, lookup}
use dragonfly_operator.Kube.Objects.{
  Nilable, ClaimSpec, PersistentVolumeClaim, StatefulSetSpec, ServiceObjectSpec, BudgetSpec,
}

abbrev pub decided {ℓ} : {A : Type ℓ} {x y : A} → Dec (x ≡ y) → Bool
decided (yes p) = true
decided (no n) = false

pub decided_refl {ℓ} : {A : Type ℓ} {x : A} (d : Dec (x ≡ x)) → decided d ≡ true
decided_refl (yes p) = refl
decided_refl (no n) = absurd (n refl)

pub different : (x y : String) → (x == y) ≡ false → ¬ (x ≡ y)
different x y e p = ground (arith, eq_iff x y)

unfoldable pub String-discrete : Discrete String
String-discrete x y = elim (Bool-cases (x == y)) [
  | inl e ↦ yes ((eq_iff x y).0 e)
  | inr e ↦ no (different x y e)
]

unfoldable pub ClaimSpec-discrete : Discrete ClaimSpec
ClaimSpec-discrete = hlevel String-discrete

unfoldable pub StatefulSetSpec-discrete : Discrete StatefulSetSpec
StatefulSetSpec-discrete = hlevel (ℕ_discrete, String-discrete)

unfoldable pub ServiceObjectSpec-discrete : Discrete ServiceObjectSpec
ServiceObjectSpec-discrete = hlevel (ℕ_discrete, String-discrete)

unfoldable pub BudgetSpec-discrete : Discrete BudgetSpec
BudgetSpec-discrete = hlevel (ℕ_discrete, String-discrete)

-- Maps, by their values at all keys, whatever the order of the entries.
abbrev pub same_value : Option String → Option String → Bool
same_value none none = true
same_value (some v) (some w) = v == w
same_value none (some w) = false
same_value (some v) none = false

unfoldable pub agrees_on : Dict String → Dict String → Dict String → Bool
unfolding lookup
agrees_on [] a b = true
agrees_on ((k, v) ∷ keys) a b = same_value (lookup k a) (lookup k b) && agrees_on keys a b

unfoldable pub dict_equal : Dict String → Dict String → Bool
unfolding agrees_on
dict_equal a b = agrees_on a a b && agrees_on b a b

-- A nil slice or map equals nil alone.
abbrev pub nil_equal {ℓ} : {A : Type ℓ} → (A → A → Bool) → Nilable A → Nilable A → Bool
nil_equal equal none none = true
nil_equal equal (some a) (some b) = equal a b
nil_equal equal none (some b) = false
nil_equal equal (some a) none = false

unfoldable pub claim_equal : PersistentVolumeClaim → PersistentVolumeClaim → Bool
unfolding dict_equal ClaimSpec-discrete String-discrete
claim_equal a b =
    a.name == b.name
    && nil_equal dict_equal a.labels b.labels
    && nil_equal dict_equal a.annotations b.annotations
    && decided (ClaimSpec-discrete a.spec b.spec)
    && a.others == b.others

unfoldable pub claims_equal : List PersistentVolumeClaim → List PersistentVolumeClaim → Bool
unfolding claim_equal
claims_equal [] [] = true
claims_equal (a ∷ xs) (b ∷ ys) = claim_equal a b && claims_equal xs ys
claims_equal [] (b ∷ ys) = false
claims_equal (a ∷ xs) [] = false

-- The specification without its maps, which are compared apart.
abbrev pub without_maps : StatefulSetSpec → StatefulSetSpec
without_maps spec = record spec {
  selector = none;
  template_labels = none;
  template_annotations = none;
  volume_claim_templates = none;
}

unfoldable pub stateful_set_equal : StatefulSetSpec → StatefulSetSpec → Bool
unfolding dict_equal claims_equal StatefulSetSpec-discrete
stateful_set_equal a b =
    nil_equal dict_equal a.selector b.selector
    && nil_equal dict_equal a.template_labels b.template_labels
    && nil_equal dict_equal a.template_annotations b.template_annotations
    && nil_equal claims_equal a.volume_claim_templates b.volume_claim_templates
    && decided (StatefulSetSpec-discrete (without_maps a) (without_maps b))

abbrev pub service_without_maps : ServiceObjectSpec → ServiceObjectSpec
service_without_maps spec = record spec { selector = none }

unfoldable pub service_equal : ServiceObjectSpec → ServiceObjectSpec → Bool
unfolding dict_equal ServiceObjectSpec-discrete
service_equal a b =
    nil_equal dict_equal a.selector b.selector
    && decided (ServiceObjectSpec-discrete (service_without_maps a) (service_without_maps b))

abbrev pub budget_without_maps : BudgetSpec → BudgetSpec
budget_without_maps spec = record spec { selector = none }

unfoldable pub budget_equal : BudgetSpec → BudgetSpec → Bool
unfolding dict_equal BudgetSpec-discrete
budget_equal a b =
    nil_equal dict_equal a.selector b.selector
    && decided (BudgetSpec-discrete (budget_without_maps a) (budget_without_maps b))
