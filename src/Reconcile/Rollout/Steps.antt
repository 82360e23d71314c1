-- ===== src/Reconcile/Rollout/Steps.antt =====
-- How one reconciliation of a rolling update ends where nothing goes wrong
-- (`DragonflyReconciler.Reconcile`).
use dragonfly_operator.Prelude.{
  ◌≡◌, refl, ap, ◌∙◌, String, Bool, true, false, List, ◌∷◌, some, none,
}
use dragonfly_operator.Kube.{Pod, Dragonfly, DragonflyStatus}
use dragonfly_operator.Pods.{is_pod_on_latest_version}
use dragonfly_operator.Effects.Errors.{ok}
use dragonfly_operator.Effects.Calls.{
  Env, Instance, M, wrapping, attempt, pure, ◌>>=◌, delete_pod, record_event,
}
use dragonfly_operator.Effects.Within.{Grows, grown, more, Grows-trans, no_delete}
use dragonfly_operator.Effects.Outcome.{bind_run, rewrapping_run}
use dragonfly_operator.Effects.Returns.{
  Returns, Returns-pure, Returns-bind, Returns-get_df, Returns-attempt, Returns-rewrapping,
}
use dragonfly_operator.Instance.Status.{get_master, patch_status, phase_ready}
use dragonfly_operator.Instance.Rollout.{
  Requeue, has_terminating, find_outdated, sort_by_name, replace_one, update_replicas,
  delete_if_outdated, detect_old_masters,
}
use dragonfly_operator.Instance.Rollout.Sorting.{has_terminating-sort_by_name}
use dragonfly_operator.Reconcile.Rollout.{
  complete_rollout, roll_found, roll_master, after_update, roll_out,
}
use dragonfly_operator.Reconcile.Rollout.Calm.{IsCalm}
use dragonfly_operator.Reconcile.Rollout.Calm.Checks.{get_master-Returns, list_masters-Returns}
use dragonfly_operator.Reconcile.Rollout.Path.{has_terminating_calm, next_step, roll_out-Reaches}

-- The instance after the deletion of a replica.
abbrev pub after_deletion : Pod → Instance → Instance
after_deletion pod s = record s {
  calls = delete_pod pod ∷ record_event "Rollout" "Deleting replica" ∷ s.calls;
}

module _ {env : Env} {df : Dragonfly} {revision : String} {master : Pod} {replicas : List Pod}
    (is_ipv4 : String → Bool) (calm : IsCalm env df revision master replicas)
    (status : DragonflyStatus) where
  replace_one-deletes :
      (sorted : List Pod) (pod : Pod) (s : Instance)
      → has_terminating sorted ≡ false
      → find_outdated sorted revision ≡ some pod
      → replace_one env is_ipv4 sorted revision s ≡ (ok (5, sorted), after_deletion pod s)
  unfolding replace_one ◌>>=◌
  replace_one-deletes sorted pod s h e = rw (h, e, calm.delete_pod) refl

  pub replace_one-none :
      (sorted : List Pod) (s : Instance)
      → has_terminating sorted ≡ false
      → find_outdated sorted revision ≡ none
      → replace_one env is_ipv4 sorted revision s ≡ (ok (0, sorted), s)
  unfolding replace_one pure
  replace_one-none sorted s h e = rw (h, e) refl

  -- What a step does next is decided by the sorted replicas, once there is a master.
  pub update_replicas-run :
      (s : Instance)
      → s.df ≡ df
      → update_replicas env is_ipv4 replicas revision s
        ≡ replace_one env is_ipv4
            (sort_by_name replicas)
            revision
            (wrapping "failed to get master before deleting replica" (get_master env) s).1
  unfolding update_replicas
  update_replicas-run s e =
      bind_run (wrapping "failed to get master before deleting replica" (get_master env)) _ s master
        (rewrapping_run _ (get_master env) s master (get_master-Returns is_ipv4 calm s e).ended)

  pub sorted_calm : has_terminating (sort_by_name replicas) ≡ false
  sorted_calm =
      has_terminating-sort_by_name replicas ∙ has_terminating_calm replicas calm.replicas_calm

  pub next_step-deletes :
      (pod : Pod) (s : Instance)
      → s.df ≡ df
      → find_outdated (sort_by_name replicas) revision ≡ some pod
      → (u : Instance) × Grows no_delete s.calls u.calls
        × (next_step is_ipv4 calm status s ≡ (ok 5, after_deletion pod u))
  unfolding ◌>>=◌ after_update
  next_step-deletes pod s e h =
      let asked = wrapping "failed to get master before deleting replica" (get_master env) in
      let found : Returns no_delete asked s master =
        Returns-rewrapping _ (get_master-Returns is_ipv4 calm s e) in
      (
        (asked s).1,
        found.grows,
        rw
            (update_replicas-run s e
              ∙ replace_one-deletes (sort_by_name replicas) pod (asked s).1 sorted_calm h)
            refl,
      )

  delete_if_outdated-Returns :
      (s : Instance)
      → is_pod_on_latest_version master revision ≡ true
      → Returns no_delete (delete_if_outdated env is_ipv4 master revision) s tt
  unfolding delete_if_outdated
  delete_if_outdated-Returns s latest = rw latest (Returns-pure tt s)

  detect_old_masters-Returns :
      (s : Instance)
      → s.df ≡ df
      → is_pod_on_latest_version master revision ≡ true
      → Returns no_delete (detect_old_masters env is_ipv4 revision) s tt
  unfolding detect_old_masters
  detect_old_masters-Returns s e latest = Returns-get_df _ (
      Returns-bind _ _ (list_masters-Returns is_ipv4 calm s.df s e) (λ t d.
        Returns-bind (delete_if_outdated env is_ipv4 master revision) _
          (delete_if_outdated-Returns t latest) (λ u f. Returns-pure tt u)))

-- The custom resource with the rollout done.
abbrev pub completed : DragonflyStatus → Dragonfly → Dragonfly
completed status df = record df {
  status = record status { phase = phase_ready; is_rolling_update = false };
}

-- The action ends with no waiting, and the custom resource becomes this one; no pod is deleted.
pub record Completes (m : M Requeue) (s : Instance) (after : Dragonfly) : Type 0 where
  pub ended : (m s).0 ≡ ok 0
  pub df : (m s).1.df ≡ after
  pub grows : Grows no_delete s.calls (m s).1.calls

Completes-bind {ℓ} :
    {A : Type ℓ} (m : M A) (f : A → M Requeue) {s : Instance} {a : A} {after : Dragonfly}
    → Returns no_delete m s a
    → Completes (f a) (m s).1 after
    → Completes (m >>= f) s after
Completes-bind m f {s} {a} first c =
    let run = bind_run m f s a first.ended in
    record {
      ended = rw run c.ended;
      df = rw run c.df;
      grows = rw run (Grows-trans first.grows c.grows);
    }

module _ {env : Env} {df : Dragonfly} {revision : String} {master : Pod} {replicas : List Pod}
    (is_ipv4 : String → Bool) (calm : IsCalm env df revision master replicas)
    (status : DragonflyStatus) (latest : is_pod_on_latest_version master revision ≡ true) where
  complete_rollout-Completes :
      (s : Instance)
      → s.df ≡ df
      → Completes (complete_rollout env is_ipv4 status) s (completed status df)
  unfolding complete_rollout patch_status ◌>>=◌
  complete_rollout-Completes s e = record {
    ended = rw calm.patch_status refl;
    df = rw calm.patch_status (ap (completed status) e);
    grows = rw calm.patch_status (more _ refl (more _ refl grown));
  }

  roll_found-Completes :
      (sorted : List Pod) (s : Instance)
      → s.df ≡ df
      → Completes
          (roll_found env is_ipv4 status sorted revision (ok master))
          s
          (completed status df)
  roll_found-Completes sorted s e =
      let finish =
        wrapping "failed to detect old masters" (detect_old_masters env is_ipv4 revision) in
      let detected : Returns no_delete finish s tt =
        Returns-rewrapping _ (detect_old_masters-Returns is_ipv4 calm status s e latest) in
      rw latest (
        Completes-bind finish (λ _. complete_rollout env is_ipv4 status) detected
          (complete_rollout-Completes (finish s).1 (detected.df ∙ e)))

  roll_master-Completes :
      (sorted : List Pod) (s : Instance)
      → s.df ≡ df
      → Completes (roll_master env is_ipv4 status sorted revision) s (completed status df)
  unfolding roll_master
  roll_master-Completes sorted s e =
      let found = Returns-attempt (get_master-Returns is_ipv4 calm s e) in
      Completes-bind (attempt (get_master env)) _ found
        (roll_found-Completes sorted _ (found.df ∙ e))

  next_step-Completes :
      (s : Instance)
      → s.df ≡ df
      → find_outdated (sort_by_name replicas) revision ≡ none
      → Completes (next_step is_ipv4 calm status) s (completed status df)
  unfolding ◌>>=◌ after_update
  next_step-Completes s e h =
      let asked = wrapping "failed to get master before deleting replica" (get_master env) in
      let found : Returns no_delete asked s master =
        Returns-rewrapping _ (get_master-Returns is_ipv4 calm s e) in
      let run =
        update_replicas-run is_ipv4 calm status s e
        ∙ replace_one-none is_ipv4 calm status (sort_by_name replicas) (asked s).1
            (sorted_calm is_ipv4 calm status) h in
      let done = roll_master-Completes (sort_by_name replicas) (asked s).1 (found.df ∙ e) in
      record {
        ended = rw run done.ended;
        df = rw run done.df;
        grows = rw run (Grows-trans found.grows done.grows);
      }

  -- With all replicas updated, the reconciliation completes the rollout.
  pub roll_out-Completes :
      (s : Instance)
      → s.df ≡ df
      → find_outdated (sort_by_name replicas) revision ≡ none
      → Completes (roll_out env is_ipv4 status) s (completed status df)
  roll_out-Completes s e h =
      let (t, way) = roll_out-Reaches is_ipv4 calm status s e in
      let done = next_step-Completes t (way.df ∙ e) h in
      record {
        ended = rw (way.run) done.ended;
        df = rw (way.run) done.df;
        grows = rw (way.run) (Grows-trans way.grows done.grows);
      }
