-- ===== src/Instance/Resources/Refinement.antt =====
-- `reconcileResources` (internal/controller/dragonfly_instance.go) against what it is for: the state of
-- each name in the API server, whatever the order of the requests.
use mathlib.Core.Path.{subst}
use dragonfly_operator.Prelude.{
  ◌≡◌, refl, ap, ◌∙◌, true, false, ◌&&◌, Option, none, some, List, [], ◌∷◌, if◌then◌else◌,
  Bool-cases, inl, inr,
}
use dragonfly_operator.Prelude.Int.{pos, ltb_ℤ}
use dragonfly_operator.Kube.{Dragonfly}
use dragonfly_operator.Kube.Objects.{Object}
use dragonfly_operator.Effects.Errors.{ok}
use dragonfly_operator.Effects.Calls.{Env, Instance}
use dragonfly_operator.Resources.Generate.{generate_dragonfly_resources}
use dragonfly_operator.Instance.Objects.{preserve_immutable, resource_specs_equal, patched}
use dragonfly_operator.Instance.Resources.{Setup, reconcile_resources}
use dragonfly_operator.Instance.Resources.Store.{
  Key, same_key, key_of, budget_key, Store, put, remove, store_after, IsKeyed, put-IsKeyed, Serves,
  same_key→eq, same_key_refl, store_after-IsKeyed,
}
use dragonfly_operator.Instance.Resources.Keys.{
  IsApart, AreApart, generate_dragonfly_resources-AreApart,
}
use dragonfly_operator.Instance.Resources.Applied.{
  Refers, outcome, place, place_all, key_of-patched,
}
use dragonfly_operator.Instance.Resources.Applied.Whole.{
  without_spare, reconcile_resources-Reconciled,
}

-- The generated object of a name.
abbrev pub find_at : Key → List Object → Option Object
find_at key [] = none
find_at key (object ∷ objects) =
    if same_key (key_of object) key then some object else find_at key objects

module _ (admit own : Object → Object) where
  abbrev pub desired_or_held : Option Object → Option Object → Option Object
  desired_or_held none held = held
  desired_or_held (some desired) held = some (outcome admit own desired held)

  -- The state of a name that is wanted after a reconciliation: nothing, for a disruption budget that is
  -- not needed; the generated object, merged with what was there; and else what was there.
  abbrev pub wanted : Dragonfly → List Object → Store → Store
  wanted df objects before key =
      if ltb_ℤ df.spec.replicas (pos 2) && same_key (budget_key df.namespace df.name) key
      then none
      else desired_or_held (find_at key objects) (before key)

find_at-IsApart :
    (object : Object) (objects : List Object)
    → IsApart object objects
    → find_at (key_of object) objects ≡ none
find_at-IsApart object [] h = refl
find_at-IsApart object (other ∷ objects) h =
    elim (Bool-cases (same_key (key_of other) (key_of object))) [
      | inl same ↦
          let e = same_key→eq (key_of other) (key_of object) same in
          let again = ap (same_key (key_of object)) e ∙ same_key_refl (key_of object) in cc (h.0)
      | inr differ ↦ rw differ (find_at-IsApart object objects h.1)
    ]

put_same :
    (object : Object) (store : Store) (key : Key)
    → same_key (key_of object) key ≡ true
    → put object store key ≡ some object
unfolding put
put_same object store key e = rw e refl

put_other :
    (object : Object) (store : Store) (key : Key)
    → same_key (key_of object) key ≡ false
    → put object store key ≡ store key
unfolding put
put_other object store key e = rw e refl

without_spare_at :
    (df : Dragonfly) (store : Store) (key : Key) {held : Option Object}
    → store key ≡ held
    → without_spare df store key ≡ (
        if ltb_ℤ df.spec.replicas (pos 2) && same_key (budget_key df.namespace df.name) key
        then none
        else held)
unfolding remove
without_spare_at df store key h = elim (Bool-cases (ltb_ℤ df.spec.replicas (pos 2))) [
  | inl spare ↦ rw (spare, h) refl
  | inr needed ↦ rw needed h
]

module _ (admit own : Object → Object)
    (admit_key : (object : Object) → key_of (admit object) ≡ key_of object)
    (own_key : (object : Object) → key_of (own object) ≡ key_of object) where
  pub key_of-outcome :
      (desired : Object) (store : Store)
      → IsKeyed store
      → (held : Option Object) → store (key_of desired) ≡ held
      → key_of (outcome admit own desired held) ≡ key_of desired
  key_of-outcome desired store keyed none e = admit_key (own desired) ∙ own_key desired
  key_of-outcome desired store keyed (some existing) e =
      let here = keyed (key_of desired) existing e in
      let target = preserve_immutable (own desired) existing in
      elim (Bool-cases (resource_specs_equal target existing)) [
        | inl same ↦ rw same here
        | inr changed ↦
            rw changed (admit_key (patched target existing) ∙ key_of-patched target existing ∙ here)
      ]

  -- The order in which objects of different names are applied makes no difference.
  pub place_all_at :
      (objects : List Object) (store : Store) (key : Key)
      → AreApart objects
      → IsKeyed store
      → place_all admit own objects store key
        ≡ desired_or_held admit own (find_at key objects) (store key)
  unfolding put
  place_all_at [] store key apart keyed = refl
  place_all_at (desired ∷ objects) store key apart keyed =
      let placed = outcome admit own desired (store (key_of desired)) in
      let named = key_of-outcome desired store keyed (store (key_of desired)) refl in
      let rest =
        place_all_at objects (place admit own desired store) key apart.1
          (put-IsKeyed placed store keyed) in
      let moved = ap (λ (k : Key). same_key k key) named in
      elim (Bool-cases (same_key (key_of desired) key)) [
        | inl same ↦
            let e = same_key→eq (key_of desired) key same in
            let last =
              subst (λ (k : Key). find_at k objects ≡ none) e
                (find_at-IsApart desired objects apart.0) in
            let here = put_same placed store key (moved ∙ same) in
            let merged = ap (λ (k : Key). some (outcome admit own desired (store k))) e in
            rw same (
              rest
              ∙ ap (λ o. desired_or_held admit own o (place admit own desired store key)) last
              ∙ here
              ∙ merged)
        | inr other ↦ rw other (
            rest
            ∙ ap (desired_or_held admit own (find_at key objects))
                (put_other placed store key (moved ∙ other)))
      ]

module _ {env : Env} {admit own : Object → Object} {initial : Store} {setup : Setup} where
  -- Where the objects of an instance can be generated, its reconciliation against a server that refuses
  -- nothing ends with no error; it leaves no disruption budget for an instance that needs none, each
  -- generated object under its own name (created, or merged with the one that was there), and everything
  -- else as it was, for every name.
  pub reconcile_resources-wanted :
      Serves env admit initial
      → (objects : List Object) (s : Instance) → Refers setup s.df own
      → generate_dragonfly_resources setup.scripts s.df setup.default_image ≡ ok objects
      → (key : Key)
      → ((reconcile_resources env setup s).0 ≡ ok tt)
        × (store_after admit initial (reconcile_resources env setup s).1.calls key
            ≡ wanted admit own s.df objects (store_after admit initial s.calls) key)
  unfolding remove
  reconcile_resources-wanted serves objects s refers e key =
      let done = reconcile_resources-Reconciled serves objects s refers e in
      let before = store_after admit initial s.calls in
      let apart =
        generate_dragonfly_resources-AreApart setup.scripts s.df setup.default_image objects e in
      let merged =
        place_all_at admit own serves.admit_key refers.own_key objects before key apart
          (store_after-IsKeyed serves s.calls) in
      let held = ap (λ (store : Store). store key) done.holds in
      (done.ended, held ∙ without_spare_at s.df (place_all admit own objects before) key merged)
