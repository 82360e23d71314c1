-- ===== src/Kube/Equality/Laws.antt =====
-- Every object equals itself, and what equality of maps says.
use dragonfly_operator.Prelude.{
  ◌≡◌, refl, String, Bool, true, Option, none, some, List, [], ◌∷◌, eq_refl,
}
use dragonfly_operator.Prelude.Dict.{Dict, lookup}
use dragonfly_operator.Kube.Objects.{
  Nilable, PersistentVolumeClaim, StatefulSetSpec, ServiceObjectSpec, BudgetSpec,
}
use dragonfly_operator.Kube.Equality.{
  decided_refl, same_value, agrees_on, dict_equal, nil_equal, claim_equal, claims_equal,
  ClaimSpec-discrete, StatefulSetSpec-discrete, ServiceObjectSpec-discrete, BudgetSpec-discrete,
  stateful_set_equal, service_equal, budget_equal,
}

same_value_refl : (v : Option String) → same_value v v ≡ true
same_value_refl none = refl
same_value_refl (some v) = eq_refl v

agrees_on_refl : (keys a : Dict String) → agrees_on keys a a ≡ true
unfolding agrees_on
agrees_on_refl [] a = refl
agrees_on_refl ((k, v) ∷ keys) a = rw (same_value_refl (lookup k a), agrees_on_refl keys a) refl

pub dict_equal_refl : (a : Dict String) → dict_equal a a ≡ true
unfolding dict_equal
dict_equal_refl a = rw (agrees_on_refl a a) refl

pub nil_equal_refl {ℓ} :
    {A : Type ℓ} (equal : A → A → Bool)
    → ((a : A) → equal a a ≡ true)
    → (a : Nilable A) → nil_equal equal a a ≡ true
nil_equal_refl equal h none = refl
nil_equal_refl equal h (some a) = h a

pub nil_dict_equal_refl : (a : Nilable (Dict String)) → nil_equal dict_equal a a ≡ true
nil_dict_equal_refl = nil_equal_refl dict_equal dict_equal_refl

claim_equal_refl : (a : PersistentVolumeClaim) → claim_equal a a ≡ true
unfolding claim_equal
claim_equal_refl a =
    rw
      (
        eq_refl a.name,
        nil_dict_equal_refl a.labels,
        nil_dict_equal_refl a.annotations,
        decided_refl (ClaimSpec-discrete a.spec a.spec),
        eq_refl a.others,
      )
      refl

claims_equal_refl : (xs : List PersistentVolumeClaim) → claims_equal xs xs ≡ true
unfolding claims_equal
claims_equal_refl [] = refl
claims_equal_refl (x ∷ xs) = rw (claim_equal_refl x, claims_equal_refl xs) refl

pub nil_claims_equal_refl :
    (xs : Nilable (List PersistentVolumeClaim)) → nil_equal claims_equal xs xs ≡ true
nil_claims_equal_refl = nil_equal_refl claims_equal claims_equal_refl

pub stateful_set_equal_refl : (a : StatefulSetSpec) → stateful_set_equal a a ≡ true
unfolding stateful_set_equal
stateful_set_equal_refl a =
    rw
      (
        nil_dict_equal_refl a.selector,
        nil_dict_equal_refl a.template_labels,
        nil_dict_equal_refl a.template_annotations,
        nil_claims_equal_refl a.volume_claim_templates,
      )
      (decided_refl (StatefulSetSpec-discrete _ _))

pub service_equal_refl : (a : ServiceObjectSpec) → service_equal a a ≡ true
unfolding service_equal
service_equal_refl a = rw (nil_dict_equal_refl a.selector) (
    decided_refl
      (ServiceObjectSpec-discrete (record a { selector = none }) (record a { selector = none })))

pub service_equal_same : (a b : ServiceObjectSpec) → a ≡ b → service_equal a b ≡ true
service_equal_same a b e = rw e (service_equal_refl b)

pub budget_equal_refl : (a : BudgetSpec) → budget_equal a a ≡ true
unfolding budget_equal
budget_equal_refl a = rw (nil_dict_equal_refl a.selector) (
    decided_refl
      (BudgetSpec-discrete (record a { selector = none }) (record a { selector = none })))
