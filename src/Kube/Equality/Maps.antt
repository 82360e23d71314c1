-- ===== src/Kube/Equality/Maps.antt =====
-- `reflect.DeepEqual` on maps is equality of the functions that they stand for.
use dragonfly_operator.Prelude.{
  ◌≡◌, refl, sym, ap, ◌∙◌, String, Bool, true, false, ◌&&◌, ◌↔◌, Option, none, some, [], ◌∷◌, ◌==◌,
  eq_iff, eq_refl, Bool-cases, inl, inr,
}
use dragonfly_operator.Prelude.Dict.{Dict, lookup}
use dragonfly_operator.Kube.Objects.{Nilable}
use dragonfly_operator.Kube.Equality.{same_value, agrees_on, dict_equal, nil_equal}

-- Both are nil, or neither is and they have the same value at every key.
abbrev pub SameMap : Nilable (Dict String) → Nilable (Dict String) → Type 0
SameMap none none = Unit
SameMap (some a) (some b) = (k : String) → lookup k a ≡ lookup k b
SameMap none (some b) = ⊥
SameMap (some a) none = ⊥

pub and_true : (x y : Bool) → (x && y) ≡ true → (x ≡ true) × (y ≡ true)
and_true true y h = (refl, h)
and_true false y h = cc

same_value_iff : (v w : Option String) → (same_value v w ≡ true) ↔ (v ≡ w)
same_value_iff none none = (λ e. refl, λ e. refl)
same_value_iff (some v) (some w) =
    (λ e. ap some ((eq_iff v w).0 e), λ e. let same : v ≡ w = cc in rw same (eq_refl w))
same_value_iff none (some w) = (λ e. cc, λ e. cc)
same_value_iff (some v) none = (λ e. cc, λ e. cc)

-- Where the maps agree on the keys of a list, they agree on a key that it has.
agrees_on-lookup :
    (keys a b : Dict String) (k v : String)
    → agrees_on keys a b ≡ true
    → lookup k keys ≡ some v
    → lookup k a ≡ lookup k b
unfolding agrees_on lookup
agrees_on-lookup [] a b k v h e = cc
agrees_on-lookup ((j, w) ∷ keys) a b k v h e =
    let (here, rest) = and_true _ (agrees_on keys a b) h in
    elim (Bool-cases (j == k)) [
      | inl same ↦
          let key = (eq_iff j k).0 same in
          rw (sym key) ((same_value_iff (lookup j a) (lookup j b)).0 here)
      | inr other ↦ agrees_on-lookup keys a b k v rest (rw other at e)
    ]

agrees_on-same :
    (keys a b : Dict String) → ((k : String) → lookup k a ≡ lookup k b) → agrees_on keys a b ≡ true
unfolding agrees_on
agrees_on-same [] a b h = refl
agrees_on-same ((k, w) ∷ keys) a b h =
    rw ((same_value_iff (lookup k a) (lookup k b)).1 (h k), agrees_on-same keys a b h) refl

module _ (a b : Dict String) (on_a : agrees_on a a b ≡ true) (on_b : agrees_on b a b ≡ true)
    (k : String) where
  agreed : (v w : Option String) → lookup k a ≡ v → lookup k b ≡ w → lookup k a ≡ lookup k b
  agreed (some v) w e f = agrees_on-lookup a a b k v on_a e
  agreed none (some w) e f = agrees_on-lookup b a b k w on_b f
  agreed none none e f = e ∙ sym f

pub dict_equal_iff :
    (a b : Dict String) → (dict_equal a b ≡ true) ↔ ((k : String) → lookup k a ≡ lookup k b)
unfolding dict_equal
dict_equal_iff a b = (
  λ e k.
      let (on_a, on_b) = and_true (agrees_on a a b) (agrees_on b a b) e in
      agreed a b on_a on_b k (lookup k a) (lookup k b) refl refl,
  λ h. rw (agrees_on-same a a b h, agrees_on-same b a b h) refl,
)

pub nil_dict_equal_iff :
    (a b : Nilable (Dict String)) → (nil_equal dict_equal a b ≡ true) ↔ SameMap a b
nil_dict_equal_iff none none = (λ e. tt, λ h. refl)
nil_dict_equal_iff (some a) (some b) = dict_equal_iff a b
nil_dict_equal_iff none (some b) = (λ e. cc, λ h. elim h [ ])
nil_dict_equal_iff (some a) none = (λ e. cc, λ h. elim h [ ])
