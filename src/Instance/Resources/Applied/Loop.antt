-- ===== src/Instance/Resources/Applied/Loop.antt =====
-- The loop of `reconcileResources` over the objects, against a server that holds them
-- (internal/controller/dragonfly_instance.go).
use dragonfly_operator.Prelude.{
  ◌≡◌, refl, sym, ap, ◌∙◌, Bool, true, false, Option, none, some, List, [], ◌∷◌, if◌then◌else◌,
}
use dragonfly_operator.Kube.{Dragonfly}
use dragonfly_operator.Kube.Objects.{Object}
use dragonfly_operator.Effects.Errors.{ok, is_not_found}
use dragonfly_operator.Effects.Calls.{
  gets, attempt, wrapping, Env, Instance, pure, perform, get_object, create_object, patch_object,
}
use dragonfly_operator.Effects.Actions.{do_patch_object}
use dragonfly_operator.Instance.Objects.{preserve_immutable, resource_specs_equal, patched}
use dragonfly_operator.Instance.Resources.{
  Setup, warn_immutable, create_resource, update_resource, reconcile_found, reconcile_resource,
  reconcile_each, referenced,
}
use dragonfly_operator.Instance.Resources.Store.{
  key_of, Store, put, store_after, found, Serves, store_after-IsKeyed,
}
use dragonfly_operator.Instance.Resources.Applied.{
  Leaves, Refers, outcome, place, place_all, Leaves-pure, Leaves-then, Leaves-after,
  Leaves-rewrapping, Leaves-perform, Leaves-eq, warn_immutable-Leaves, put_held, key_of-patched,
}

module _ {env : Env} {admit own : Object → Object} {initial : Store} {setup : Setup}
    {df : Dragonfly} (serves : Serves env admit initial) (refers : Refers setup df own) where
  referenced_run :
      (desired : Object) (s : Instance)
      → referenced (setup.set_controller_reference df desired) s ≡ (ok (own desired), s)
  unfolding pure
  referenced_run desired s = rw (refers.refer desired) refl

  create_resource-Leaves :
      (desired : Object) (s : Instance)
      → store_after admit initial s.calls (key_of desired) ≡ none
      → Leaves admit initial
          (create_resource env setup df desired)
          s
          (put (admit (own desired)) (store_after admit initial s.calls))
  unfolding create_resource
  create_resource-Leaves desired s free =
      let free_own = ap (store_after admit initial s.calls) (refers.own_key desired) ∙ free in
      Leaves-after _ _ (referenced_run desired s) refl (
        Leaves-rewrapping _ (
          Leaves-perform (create_object (own desired)) _ s
            (serves.create s.calls (own desired) free_own)))

  patch-Leaves :
      (target existing : Object) (s : Instance)
      → store_after admit initial s.calls (key_of existing) ≡ some existing
      → Leaves admit initial
          (wrapping "failed to patch resource"
            (do_patch_object env existing (patched target existing)))
          s
          (put (admit (patched target existing)) (store_after admit initial s.calls))
  patch-Leaves target existing s held =
      let held_patched =
        ap (store_after admit initial s.calls) (key_of-patched target existing) ∙ held in
      Leaves-rewrapping _ (
        Leaves-perform (patch_object existing (patched target existing)) _ s
          (serves.patch s.calls existing (patched target existing) held_patched))

  -- The last step of an update: the patch, unless there is no change.
  patch_unless-Leaves :
      (target existing : Object) (s : Instance)
      → store_after admit initial s.calls (key_of existing) ≡ some existing
      → (equal : Bool)
      → Leaves admit initial
          (if equal
            then pure tt
            else wrapping "failed to patch resource"
                (do_patch_object env existing (patched target existing)))
          s
          (put
            (if equal then existing else admit (patched target existing))
            (store_after admit initial s.calls))
  patch_unless-Leaves target existing s held true =
      Leaves-eq (sym (put_held existing _ held)) (Leaves-pure s)
  patch_unless-Leaves target existing s held false = patch-Leaves target existing s held

  update_resource-Leaves :
      (desired existing : Object) (s : Instance)
      → store_after admit initial s.calls (key_of existing) ≡ some existing
      → Leaves admit initial
          (update_resource env setup df desired existing)
          s
          (put (outcome admit own desired (some existing)) (store_after admit initial s.calls))
  unfolding update_resource
  update_resource-Leaves desired existing s held =
      let warned = warn_immutable-Leaves (own desired) existing s in
      let t = (warn_immutable (own desired) existing s).1 in
      let target = preserve_immutable (own desired) existing in
      let held_t = ap (λ (store : Store). store (key_of existing)) warned.holds ∙ held in
      let same = ap (put (outcome admit own desired (some existing))) (warned.holds) in
      Leaves-after _ _ (referenced_run desired s) refl (
        Leaves-then warned (
          Leaves-eq same
            (patch_unless-Leaves target existing t held_t (resource_specs_equal target existing))))

  reconcile_found-Leaves :
      (desired : Object) (s : Instance) (held : Option Object)
      → store_after admit initial s.calls (key_of desired) ≡ held
      → Leaves admit initial
          (reconcile_found env setup df desired (found held))
          s
          (put (outcome admit own desired held) (store_after admit initial s.calls))
  unfolding is_not_found
  reconcile_found-Leaves desired s none e = create_resource-Leaves desired s e
  reconcile_found-Leaves desired s (some existing) e =
      let here = store_after-IsKeyed serves s.calls (key_of desired) existing e in
      update_resource-Leaves desired existing s (ap (store_after admit initial s.calls) here ∙ e)

  pub reconcile_resource-Leaves :
      (desired : Object) (s : Instance)
      → s.df ≡ df
      → Leaves admit initial
          (reconcile_resource env setup desired)
          s
          (place admit own desired (store_after admit initial s.calls))
  unfolding reconcile_resource gets attempt perform store_after
  reconcile_resource-Leaves desired s e =
      let key = key_of desired in
      let asked : Instance = record s {
        calls = get_object key.kind key.namespace key.name ∷ s.calls;
      } in
      let held = store_after admit initial s.calls key in
      let answered = reconcile_found-Leaves desired (record asked { df = df }) held refl in
      Leaves-after _ _ refl refl
        (Leaves-after _ _ {t = asked} refl refl (rw (e, serves.get s.calls key) answered))

  -- The loop applies the objects to the store, one after the other.
  pub reconcile_each-Leaves :
      (objects : List Object) (s : Instance)
      → s.df ≡ df
      → Leaves admit initial
          (reconcile_each env setup objects)
          s
          (place_all admit own objects (store_after admit initial s.calls))
  unfolding reconcile_each
  reconcile_each-Leaves [] s e = Leaves-pure s
  reconcile_each-Leaves (desired ∷ objects) s e =
      let one = reconcile_resource-Leaves desired s e in
      let t = (reconcile_resource env setup desired s).1 in
      Leaves-then one (
        Leaves-eq (ap (place_all admit own objects) one.holds)
          (reconcile_each-Leaves objects t (one.df ∙ e)))
