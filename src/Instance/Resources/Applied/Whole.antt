-- ===== src/Instance/Resources/Applied/Whole.antt =====
-- What `reconcileResources` leaves in an API server that holds the objects
-- (internal/controller/dragonfly_instance.go).
use dragonfly_operator.Prelude.{
  ◌≡◌, refl, ap, ◌∙◌, Option, none, some, List, ◌∷◌, if◌then◌else◌, Bool-cases, inl, inr,
}
use dragonfly_operator.Prelude.Int.{pos, ltb_ℤ}
use dragonfly_operator.Text.{is_empty}
use dragonfly_operator.Kube.{Dragonfly}
use dragonfly_operator.Kube.Objects.{Object}
use dragonfly_operator.Effects.Errors.{Result, ok, is_not_found}
use dragonfly_operator.Effects.Calls.{
  Env, Instance, M, ◌>>=◌, ◌>>◌, pure, perform, gets, attempt, delete_budget,
}
use dragonfly_operator.Effects.Outcome.{bind_run}
use dragonfly_operator.Resources.Generate.{generate_dragonfly_resources}
use dragonfly_operator.Instance.Status.{phase_resources_created, patch_status}
use dragonfly_operator.Instance.Resources.{
  Setup, unless_missing, delete_spare_budget, record_created, generated, reconcile_each,
  reconcile_resources,
}
use dragonfly_operator.Instance.Resources.Store.{
  budget_key, Store, remove, store_after, deleted, Serves,
}
use dragonfly_operator.Instance.Resources.Applied.{
  Leaves, Refers, place_all, Leaves-pure, Leaves-after,
}
use dragonfly_operator.Instance.Resources.Applied.Loop.{reconcile_each-Leaves}

-- The store without the disruption budget that the instance needs no more.
abbrev pub without_spare : Dragonfly → Store → Store
without_spare df store =
    if ltb_ℤ df.spec.replicas (pos 2) then remove (budget_key df.namespace df.name) store else store

-- The custom resource with its first phase.
abbrev pub with_phase : Dragonfly → Dragonfly
with_phase df =
    if is_empty df.status.phase
    then record df { status = record (df.status) { phase = phase_resources_created } }
    else df

module _ {env : Env} {admit : Object → Object} {initial : Store} (setup : Setup)
    (serves : Serves env admit initial) where
  unless_missing-Leaves :
      (held : Option Object) (s : Instance)
      → Leaves admit initial
          (unless_missing env setup (deleted held))
          s
          (store_after admit initial s.calls)
  unfolding is_not_found
  unless_missing-Leaves none s = Leaves-pure s
  unless_missing-Leaves (some object) s = Leaves-pure s

  pub delete_spare_budget-Leaves :
      (s : Instance)
      → Leaves admit initial
          (delete_spare_budget env setup)
          s
          (without_spare s.df (store_after admit initial s.calls))
  unfolding delete_spare_budget gets attempt perform store_after
  delete_spare_budget-Leaves s =
      let ns = s.df.namespace in
      let name = s.df.name in
      let t : Instance = record s { calls = delete_budget ns name ∷ s.calls } in
      let held = store_after admit initial s.calls (budget_key ns name) in
      elim (Bool-cases (ltb_ℤ s.df.spec.replicas (pos 2))) [
        | inl spare ↦ Leaves-after _ _ {t = s} refl refl (
            rw spare (
              Leaves-after _ _ {t = t} refl refl
                (rw (serves.delete s.calls ns name) (unless_missing-Leaves held t))))
        | inr needed ↦ Leaves-after _ _ {t = s} refl refl (rw needed (Leaves-pure s))
      ]

-- The reconciliation succeeds with the store and with the custom resource.
pub record Reconciled (admit : Object → Object) (initial : Store) (m : M (Unit {0})) (s : Instance)
    (expected : Store) : Type 0 where
  pub ended : (m s).0 ≡ ok tt
  pub df : (m s).1.df ≡ with_phase s.df
  pub holds : store_after admit initial (m s).1.calls ≡ expected

module _ {env : Env} {admit : Object → Object} {initial : Store} (setup : Setup)
    (serves : Serves env admit initial) where
  record_created-Reconciled :
      (s : Instance)
      → Reconciled admit initial (record_created env setup) s (store_after admit initial s.calls)
  unfolding record_created patch_status gets perform pure store_after ◌>>=◌
  record_created-Reconciled s = elim (Bool-cases (is_empty s.df.status.phase)) [
    | inl new ↦ record {
      ended = rw (new, serves.status) refl;
      df = rw (new, serves.status) refl;
      holds = rw (new, serves.status) refl;
    }
    | inr old ↦ record { ended = rw old refl; df = rw old refl; holds = rw old refl }
  ]

module _ {admit : Object → Object} {initial : Store} where
  Reconciled-then :
      {m n : M (Unit {0})} {s : Instance} {first second : Store}
      → Leaves admit initial m s first
      → Reconciled admit initial n (m s).1 second
      → Reconciled admit initial (m >> n) s second
  Reconciled-then {m} {n} {s} a b =
      let run = bind_run m (λ _. n) s tt a.ended in
      record {
        ended = rw run b.ended;
        df = rw run (b.df ∙ ap with_phase a.df);
        holds = rw run b.holds;
      }

  Reconciled-after {ℓ} :
      {A : Type ℓ} (m : M A) (f : A → M (Unit {0})) {s : Instance} {a : A} {expected : Store}
      → m s ≡ (ok a, s)
      → Reconciled admit initial (f a) s expected
      → Reconciled admit initial (m >>= f) s expected
  unfolding ◌>>=◌
  Reconciled-after m f e l = record { ended = rw e l.ended; df = rw e l.df; holds = rw e l.holds }

  Reconciled-eq :
      {m : M (Unit {0})} {s : Instance} {first second : Store}
      → first ≡ second
      → Reconciled admit initial m s first
      → Reconciled admit initial m s second
  Reconciled-eq e a = record { ended = a.ended; df = a.df; holds = a.holds ∙ e }

generated_run :
    (env : Env) (setup : Setup) (r : Result (List Object)) (objects : List Object) (s : Instance)
    → r ≡ ok objects
    → generated env setup r s ≡ (ok objects, s)
unfolding pure
generated_run env setup r objects s e = rw e refl

module _ {env : Env} {admit own : Object → Object} {initial : Store} {setup : Setup}
    (serves : Serves env admit initial) where
  pub reconcile_resources-Reconciled :
      (objects : List Object) (s : Instance)
      → Refers setup s.df own
      → generate_dragonfly_resources setup.scripts s.df setup.default_image ≡ ok objects
      → Reconciled admit initial
          (reconcile_resources env setup)
          s
          (without_spare s.df (place_all admit own objects (store_after admit initial s.calls)))
  unfolding reconcile_resources gets
  reconcile_resources-Reconciled objects s refers e =
      let each = reconcile_each-Leaves serves refers objects s refl in
      let t = (reconcile_each env setup objects s).1 in
      let spare = delete_spare_budget-Leaves setup serves t in
      let u = (delete_spare_budget env setup t).1 in
      let moved =
        ap (λ (df : Dragonfly). without_spare df (store_after admit initial t.calls)) each.df
        ∙ ap (without_spare s.df) each.holds in
      Reconciled-after _ _ {a = s.df} refl (
        Reconciled-after _ _ (generated_run env setup _ objects s e) (
          Reconciled-then each (
            Reconciled-then spare
              (Reconciled-eq (spare.holds ∙ moved) (record_created-Reconciled setup serves u)))))
