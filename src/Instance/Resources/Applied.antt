-- ===== src/Instance/Resources/Applied.antt =====
-- What the loop of `reconcileResources` over the objects leaves in the API server
-- (internal/controller/dragonfly_instance.go).
pub mod Loop
pub mod Whole
use mathlib.Core.Path.{fun_ext}
use dragonfly_operator.Prelude.{
  ◌≡◌, refl, sym, ap, ◌∙◌, String, Bool, true, false, Option, none, some, List, [], ◌∷◌,
  if◌then◌else◌, Bool-cases, inl, inr,
}
use dragonfly_operator.Kube.{Dragonfly}
use dragonfly_operator.Kube.Objects.{
  Object, ObjectMeta, StatefulSetSpec, stateful_set, service, disruption_budget, config, meta_of,
}
use dragonfly_operator.Effects.Errors.{Err, Result, ok, is_not_found}
use dragonfly_operator.Effects.Calls.{
  Call, History, gets, attempt, rewrapping, wrapping, Env, Instance, M, ◌>>=◌, ◌>>◌, pure, perform,
  get_object, create_object, patch_object,
}
use dragonfly_operator.Effects.Actions.{do_patch_object}
use dragonfly_operator.Effects.Outcome.{bind_run, rewrapping_run}
use dragonfly_operator.Instance.Objects.{kind_of, preserve_immutable, resource_specs_equal, patched}
use dragonfly_operator.Instance.Resources.{
  Setup, event_if, warn_immutable, create_resource, update_resource, reconcile_found,
  reconcile_resource, reconcile_each, referenced,
}
use dragonfly_operator.Instance.Resources.Store.{
  Key, same_key, key_of, Store, stamped, put, store_after, found, IsKeyed, Serves, same_key→eq,
  store_after-IsKeyed,
}

-- The action succeeds, leaves the custom resource as it is, and leaves the store in the server.
pub record Leaves (admit : Object → Object) (initial : Store) (m : M (Unit {0})) (s : Instance)
    (expected : Store) : Type 0 where
  pub ended : (m s).0 ≡ ok tt
  pub df : (m s).1.df ≡ s.df
  pub holds : store_after admit initial (m s).1.calls ≡ expected

-- `SetControllerReference` adds to an object's metadata, and the object keeps its name.
pub record Refers (setup : Setup) (df : Dragonfly) (own : Object → Object) : Type 0 where
  pub refer : (object : Object) → setup.set_controller_reference df object ≡ ok (own object)
  pub own_key : (object : Object) → key_of (own object) ≡ key_of object

module _ (admit own : Object → Object) where
  -- What is held for a generated object after a reconciliation, by what was held before.
  abbrev pub outcome : Object → Option Object → Object
  outcome desired none = admit (own desired)
  outcome desired (some existing) =
      let target = preserve_immutable (own desired) existing in
      if resource_specs_equal target existing then existing else admit (patched target existing)

  -- One object is applied to a store.
  abbrev pub place : Object → Store → Store
  place desired store = put (outcome desired (store (key_of desired))) store

  abbrev pub place_all : List Object → Store → Store
  place_all [] store = store
  place_all (desired ∷ objects) store = place_all objects (place desired store)

module _ {admit : Object → Object} {initial : Store} where
  pub Leaves-pure :
      (s : Instance) → Leaves admit initial (pure tt) s (store_after admit initial s.calls)
  unfolding pure
  Leaves-pure s = record { ended = refl; df = refl; holds = refl }

  pub Leaves-then :
      {m n : M (Unit {0})} {s : Instance} {first second : Store}
      → Leaves admit initial m s first
      → Leaves admit initial n (m s).1 second
      → Leaves admit initial (m >> n) s second
  Leaves-then {m} {n} {s} a b =
      let run = bind_run m (λ _. n) s tt a.ended in
      record { ended = rw run b.ended; df = rw run (b.df ∙ a.df); holds = rw run b.holds }

  event_if-Leaves :
      (warn : Bool) (message : String) (s : Instance)
      → Leaves admit initial (event_if warn message) s (store_after admit initial s.calls)
  unfolding perform pure store_after
  event_if-Leaves true message s = record { ended = refl; df = refl; holds = refl }
  event_if-Leaves false message s = record { ended = refl; df = refl; holds = refl }

  pub Leaves-eq :
      {m : M (Unit {0})} {s : Instance} {first second : Store}
      → first ≡ second
      → Leaves admit initial m s first
      → Leaves admit initial m s second
  Leaves-eq e a = record { ended = a.ended; df = a.df; holds = a.holds ∙ e }

  Leaves-two :
      {m n : M (Unit {0})} (s : Instance)
      → Leaves admit initial m s (store_after admit initial s.calls)
      → ((t : Instance) → Leaves admit initial n t (store_after admit initial t.calls))
      → Leaves admit initial (m >> n) s (store_after admit initial s.calls)
  Leaves-two {m} s a b = Leaves-then a (Leaves-eq a.holds (b (m s).1))

  pub warn_immutable-Leaves :
      (desired existing : Object) (s : Instance)
      → Leaves admit initial (warn_immutable desired existing) s (store_after admit initial s.calls)
  unfolding warn_immutable
  warn_immutable-Leaves (stateful_set m a) (stateful_set n b) s =
      Leaves-two s (event_if-Leaves _ _ s) (event_if-Leaves _ _)
  warn_immutable-Leaves (stateful_set m a) (service n b) s = Leaves-pure s
  warn_immutable-Leaves (stateful_set m a) (disruption_budget n b) s = Leaves-pure s
  warn_immutable-Leaves (stateful_set m a) (config n b d) s = Leaves-pure s
  warn_immutable-Leaves (service m a) existing s = Leaves-pure s
  warn_immutable-Leaves (disruption_budget m a) existing s = Leaves-pure s
  warn_immutable-Leaves (config m a c) existing s = Leaves-pure s

  pub Leaves-after {ℓ} :
      {A : Type ℓ} (m : M A) (f : A → M (Unit {0})) {s t : Instance} {a : A} {expected : Store}
      → m s ≡ (ok a, t)
      → t.df ≡ s.df
      → Leaves admit initial (f a) t expected
      → Leaves admit initial (m >>= f) s expected
  unfolding ◌>>=◌
  Leaves-after m f e d l = record {
    ended = rw e l.ended;
    df = rw e (l.df ∙ d);
    holds = rw e l.holds;
  }

  pub Leaves-rewrapping :
      (change : Err → Err) {m : M (Unit {0})} {s : Instance} {expected : Store}
      → Leaves admit initial m s expected
      → Leaves admit initial (rewrapping change m) s expected
  unfolding rewrapping
  Leaves-rewrapping change {m} {s} l = record {
    ended = rewrapping_run change m s tt l.ended;
    df = l.df;
    holds = l.holds;
  }

  pub Leaves-perform :
      (call : Call) (answer : History → Result (Unit {0})) (s : Instance)
      → answer s.calls ≡ ok tt
      → Leaves admit initial
          (perform call answer)
          s
          (stamped admit call (store_after admit initial s.calls))
  unfolding perform store_after
  Leaves-perform call answer s e = record { ended = e; df = refl; holds = refl }

-- Writing down again what is held changes nothing.
pub put_held :
    (object : Object) (store : Store)
    → store (key_of object) ≡ some object
    → put object store ≡ store
unfolding put
put_held object store held = fun_ext λ key. elim (Bool-cases (same_key (key_of object) key)) [
  | inl same ↦ rw same (sym held ∙ ap store (same_key→eq (key_of object) key same))
  | inr other ↦ rw other refl
]

pub key_of-patched :
    (desired existing : Object) → key_of (patched desired existing) ≡ key_of existing
unfolding patched
key_of-patched (stateful_set m a) (stateful_set n b) = refl
key_of-patched (service m a) (service n b) = refl
key_of-patched (disruption_budget m a) (disruption_budget n b) = refl
key_of-patched (config m a c) (config n b d) = refl
key_of-patched _ (stateful_set n b) = refl
key_of-patched _ (service n b) = refl
key_of-patched _ (disruption_budget n b) = refl
key_of-patched _ (config n b d) = refl
