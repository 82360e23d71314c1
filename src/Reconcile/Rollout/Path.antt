-- ===== src/Reconcile/Rollout/Path.antt =====
-- The way through one reconciliation of a rolling update where nothing goes wrong
-- (`DragonflyReconciler.Reconcile`).
use dragonfly_operator.Prelude.{
  ◌≡◌, refl, ap, ◌∙◌, String, Bool, true, false, not, List, [], ◌∷◌, All, if◌then◌else◌,
}
use dragonfly_operator.Kube.{Pod, Dragonfly, DragonflyStatus}
use dragonfly_operator.Effects.Calls.{Env, Instance, M, gets, wrapping, pure, ◌>>=◌}
use dragonfly_operator.Effects.Actions.{get_df}
use dragonfly_operator.Effects.Within.{Grows, grown, Grows-trans, no_delete}
use dragonfly_operator.Effects.Outcome.{bind_run}
use dragonfly_operator.Effects.Returns.{Returns, Returns-gets, Returns-rewrapping}
use dragonfly_operator.Instance.Queries.{get_stateful_set, get_replicas}
use dragonfly_operator.Instance.Rollout.{
  Requeue, or_wait, has_terminating, update_replicas, all_pods_healthy_and_have_role,
  verify_updated_replicas,
}
use dragonfly_operator.Reconcile.Rollout.{
  is_complete, after_update, update_step, roll_replicas, roll_out,
}
use dragonfly_operator.Reconcile.Rollout.Calm.{IsCalmPod, IsCalm}
use dragonfly_operator.Reconcile.Rollout.Calm.Checks.{
  all_pods_healthy_and_have_role-Returns, verify_updated_replicas-Returns, get_replicas-Returns,
  get_stateful_set-Returns,
}

-- The action at `s` goes on as the second one at `t`, with no pod deleted on the way.
pub record Leads {ℓ} {A : Type ℓ} (m : M A) (s : Instance) (n : M A) (t : Instance) : Type ℓ where
  pub run : m s ≡ n t
  pub df : t.df ≡ s.df
  pub grows : Grows no_delete s.calls t.calls

Leads-refl {ℓ} : {A : Type ℓ} (m : M A) (s : Instance) → Leads m s m s
Leads-refl m s = record { run = refl; df = refl; grows = grown }

Leads-bind {ℓ κ} :
    {A : Type ℓ} {B : Type κ} (m : M A) (f : A → M B) {s t : Instance} {a : A} {n : M B}
    → Returns no_delete m s a
    → Leads (f a) (m s).1 n t
    → Leads (m >>= f) s n t
Leads-bind m f {s} {a = a} first l = record {
  run = bind_run m f s a first.ended ∙ l.run;
  df = l.df ∙ first.df;
  grows = Grows-trans first.grows l.grows;
}

-- No replica is terminating.
pub has_terminating_calm : (pods : List Pod) → All IsCalmPod pods → has_terminating pods ≡ false
unfolding has_terminating
has_terminating_calm [] h = refl
has_terminating_calm (pod ∷ pods) h = rw (h.0.stays) (has_terminating_calm pods h.1)

module _ {env : Env} {df : Dragonfly} {revision : String} {master : Pod} {replicas : List Pod}
    (is_ipv4 : String → Bool) (calm : IsCalm env df revision master replicas)
    (status : DragonflyStatus) where
  -- All checks pass, and the update of the replicas is next.
  abbrev pub next_step : M Requeue
  next_step =
      update_replicas env is_ipv4 replicas revision >>= after_update env is_ipv4 status revision

  abbrev Reaches : M Requeue → Instance → Type 0
  Reaches m s = (t : Instance) × Leads m s next_step t

  Reaches-bind {ℓ} :
      {A : Type ℓ} (m : M A) (f : A → M Requeue) {s : Instance} {a : A}
      → Returns no_delete m s a
      → Reaches (f a) (m s).1
      → Reaches (m >>= f) s
  Reaches-bind m f first (t, l) = (t, Leads-bind m f first l)

  update_step-Reaches :
      (s : Instance) → Reaches (update_step env is_ipv4 status revision replicas) s
  unfolding update_step
  update_step-Reaches s =
      Reaches-bind (verify_updated_replicas env is_ipv4 replicas revision) _
        (verify_updated_replicas-Returns is_ipv4 calm replicas s) (_, Leads-refl next_step _)

  if_complete-Reaches :
      (complete : Bool) (s : Instance)
      → complete ≡ true
      → Reaches
          (if not complete then pure 5 else update_step env is_ipv4 status revision replicas)
          s
  if_complete-Reaches complete s e = rw e (update_step-Reaches s)

  roll_replicas-Reaches :
      (s : Instance) → s.df ≡ df → Reaches (roll_replicas env is_ipv4 status revision) s
  unfolding roll_replicas gets
  roll_replicas-Reaches s e =
      let asked = wrapping "failed to get replicas" (get_replicas env) in
      let found = Returns-rewrapping _ (get_replicas-Returns is_ipv4 calm s e) in
      let t = (asked s).1 in
      Reaches-bind asked _ found (
        Reaches-bind get_df _ (Returns-gets (λ (u : Instance). u.df) t) (
          if_complete-Reaches (is_complete replicas t.df.spec.replicas) t (
            ap (λ (d : Dragonfly). is_complete replicas d.spec.replicas) (found.df ∙ e)
            ∙ calm.complete)))

  roll_at-Reaches :
      (s : Instance)
      → s.df ≡ df
      → Reaches
          (or_wait
            (all_pods_healthy_and_have_role env is_ipv4 revision)
            (roll_replicas env is_ipv4 status revision))
          s
  roll_at-Reaches s e =
      let checked = all_pods_healthy_and_have_role-Returns is_ipv4 calm s e in
      Reaches-bind (all_pods_healthy_and_have_role env is_ipv4 revision) _ checked
        (roll_replicas-Reaches _ (checked.df ∙ e))

  pub roll_out-Reaches : (s : Instance) → s.df ≡ df → Reaches (roll_out env is_ipv4 status) s
  unfolding roll_out
  roll_out-Reaches s e =
      let (stateful_set, answered, same) = get_stateful_set-Returns is_ipv4 calm s e in
      let asked = wrapping "failed to get statefulset" (get_stateful_set env) in
      let found = Returns-rewrapping _ answered in
      Reaches-bind asked _ found (rw same (roll_at-Reaches (asked s).1 (found.df ∙ e)))
