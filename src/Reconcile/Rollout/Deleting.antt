-- ===== src/Reconcile/Rollout/Deleting.antt =====
-- Actions that delete one pod (`DragonflyReconciler.Reconcile` and the methods that it calls).
use dragonfly_operator.Prelude.{◌∷◌}
use dragonfly_operator.Kube.{Pod}
use dragonfly_operator.Effects.Errors.{Err, Result, ok, err}
use dragonfly_operator.Effects.Calls.{
  Env, History, Instance, M, proceed, rewrapping, perform, ◌>>=◌, delete_pod,
}
use dragonfly_operator.Effects.Actions.{do_delete_pod}
use dragonfly_operator.Effects.Within.{Grows, grown, Grows-trans, Within, no_delete}
use dragonfly_operator.Effects.Outcome.{bind_run}
use dragonfly_operator.Effects.Returns.{Returns}
use dragonfly_operator.Reconcile.Rollout.Path.{Leads}

-- Among the calls of the action there is one deletion, of this pod.
pub record Deletes {ℓ} {A : Type ℓ} (m : M A) (s : Instance) (pod : Pod) : Type 0 where
  pub earlier : History
  pub before : Grows no_delete s.calls earlier
  pub after : Grows no_delete (delete_pod pod ∷ earlier) (m s).1.calls

pub Deletes-perform : (env : Env) (pod : Pod) (s : Instance) → Deletes (do_delete_pod env pod) s pod
unfolding perform
Deletes-perform env pod s = record { earlier = s.calls; before = grown; after = grown }

pub Deletes-rewrapping {ℓ} :
    {A : Type ℓ} (change : Err → Err) {m : M A} {s : Instance} {pod : Pod}
    → Deletes m s pod
    → Deletes (rewrapping change m) s pod
unfolding rewrapping
Deletes-rewrapping change d = record { earlier = d.earlier; before = d.before; after = d.after }

module _ {ℓ κ} {A : Type ℓ} {B : Type κ} where
  -- The deletion comes after the first action.
  pub Deletes-next :
      (m : M A) (f : A → M B) {s : Instance} {a : A} {pod : Pod}
      → Returns no_delete m s a
      → Deletes (f a) (m s).1 pod
      → Deletes (m >>= f) s pod
  Deletes-next m f {s} {a} first later = record {
    earlier = later.earlier;
    before = Grows-trans first.grows later.before;
    after = rw (bind_run m f s a first.ended) later.after;
  }

  proceed-Grows :
      (r : Result A) (f : A → M B) (t : Instance)
      → ((a : A) → Within no_delete (f a))
      → Grows no_delete t.calls (proceed r f t).1.calls
  proceed-Grows (ok a) f t w = ((w a).at t).grows
  proceed-Grows (err e) f t w = grown

  -- The deletion is in the first action, and the rest deletes nothing.
  pub Deletes-then :
      (m : M A) (f : A → M B) {s : Instance} {pod : Pod}
      → Deletes m s pod
      → ((a : A) → Within no_delete (f a))
      → Deletes (m >>= f) s pod
  unfolding ◌>>=◌
  Deletes-then m f {s} first w = record {
    earlier = first.earlier;
    before = first.before;
    after = Grows-trans first.after (proceed-Grows (m s).0 f (m s).1 w);
  }

-- An action that goes on as one that deletes the pod.
pub Deletes-Leads {ℓ} :
    {A : Type ℓ} {m n : M A} {s t : Instance} {pod : Pod}
    → Leads m s n t
    → Deletes n t pod
    → Deletes m s pod
Deletes-Leads way d = record {
  earlier = d.earlier;
  before = Grows-trans way.grows d.before;
  after = rw (way.run) d.after;
}
