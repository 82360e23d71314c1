-- ===== src/Reconcile/Rollout/Completion.antt =====
-- When a rolling update is over (`DragonflyReconciler.Reconcile`).
use dragonfly_operator.Prelude.{
  String, Bool, true, false, not, List, ◌∷◌, ◌≡◌, ◌≢◌, refl, arith, if◌then◌else◌, Bool-cases, inl,
  inr,
}
use dragonfly_operator.Kube.{Pod, DragonflyStatus}
use dragonfly_operator.Pods.{is_pod_on_latest_version, has_outdated}
use dragonfly_operator.Effects.Errors.{Err, Result, ok, err}
use dragonfly_operator.Effects.Calls.{
  Env, M, Instance, ◌>>=◌, ◌>>◌, pure, fail, record_event, patch_dragonfly_status,
}
use dragonfly_operator.Effects.Changes.{changes}
use dragonfly_operator.Effects.Outcome.{bind_ok, bind_run, pure_ok}
use dragonfly_operator.Instance.Status.{get_master, phase_ready}
use dragonfly_operator.Instance.Rollout.{Requeue, verify_updated_replicas, update_replicas}
use dragonfly_operator.Instance.Rollout.Gate.{or_wait_done}
use dragonfly_operator.Reconcile.Rollout.{
  complete_rollout, roll_found, roll_master, after_update, update_step,
}
use dragonfly_operator.Reconcile.Rollout.Order.{update_replicas_waits}

module _ (env : Env) (is_ipv4 : String → Bool) (status : DragonflyStatus) (revision : String) where
  -- The last change but one is a patch of the custom resource to the phase `Ready`, and the last is
  -- the event that the rollout is completed.
  abbrev pub IsCompleted : Instance → Instance → Type 0
  IsCompleted s t =
      (changes t.calls
        ≡ record_event "Rollout" "Completed"
          ∷ patch_dragonfly_status s.df (record s.df {
            status = record status { phase = phase_ready; is_rolling_update = false };
          })
          ∷ changes s.calls)

  -- What holds when a step is done.
  abbrev pub IsDone : List Pod → Instance → Type 0
  IsDone replicas t =
      (has_outdated replicas revision ≡ false)
      × ((u : Instance) × (master : Pod) × ((get_master env u).0 ≡ ok master)
          × (is_pod_on_latest_version master revision ≡ true))
      × ((u : Instance) × IsCompleted u t)

  complete_rollout_changes :
      (s : Instance) (q : Requeue)
      → (complete_rollout env is_ipv4 status s).0 ≡ ok q
      → IsCompleted s (complete_rollout env is_ipv4 status s).1
  unfolding complete_rollout ◌>>=◌ changes
  complete_rollout_changes s q e = ground arith

  -- The two ways to go on with a master.
  abbrev pick : Bool → M (Unit {0}) → M (Unit {0}) → M Requeue
  pick latest replace finish =
      if not latest then replace >> pure 5 else finish >> complete_rollout env is_ipv4 status

  pick_done :
      (latest : Bool) (replace finish : M (Unit {0})) (s : Instance)
      → (pick latest replace finish s).0 ≡ ok 0
      → (latest ≡ true) × ((u : Instance) × IsCompleted u (pick latest replace finish s).1)
  pick_done true replace finish s e =
      let (x, finished, last) = bind_ok finish _ s 0 e in
      (
        refl,
        (
          (finish s).1,
          rw (bind_run finish (λ _. complete_rollout env is_ipv4 status) s x finished)
              (complete_rollout_changes (finish s).1 0 last),
        ),
      )
  pick_done false replace finish s e =
      let (x, replaced, last) = bind_ok replace _ s 0 e in
      absurd (five_not_zero refl (pure_ok 5 0 _ last))
    where
      five_not_zero : {q : Requeue} → q ≡ 5 → q ≢ 0
      five_not_zero f z = omega arith

  not_found_waits :
      (replicas : List Pod) (x : Err) (s : Instance)
      → (roll_found env is_ipv4 status replicas revision (err x) s).0 ≢ ok 0
  unfolding pure fail
  not_found_waits replicas x s e = ground arith

  -- The answer 0 comes from the last branch alone.
  roll_found_done :
      (replicas : List Pod) (found : Result Pod) (s : Instance)
      → (roll_found env is_ipv4 status replicas revision found s).0 ≡ ok 0
      → ((master : Pod) × (found ≡ ok master) × (is_pod_on_latest_version master revision ≡ true))
        × ((u : Instance) × IsCompleted u
              (roll_found env is_ipv4 status replicas revision found s).1)
  roll_found_done replicas (err x) s e = absurd (not_found_waits replicas x s e)
  roll_found_done replicas (ok master) s e =
      let (latest, (u, completed)) = pick_done (is_pod_on_latest_version master revision) _ _ s e in
      ((master, refl, latest), (u, completed))

  roll_master_done :
      (replicas : List Pod) (s : Instance)
      → (roll_master env is_ipv4 status replicas revision s).0 ≡ ok 0
      → ((master : Pod) × ((get_master env s).0 ≡ ok master)
          × (is_pod_on_latest_version master revision ≡ true))
        × ((u : Instance) × IsCompleted u (roll_master env is_ipv4 status replicas revision s).1)
  unfolding roll_master ◌>>=◌
  roll_master_done replicas s e =
      roll_found_done replicas (get_master env s).0 (get_master env s).1 e

  after_update_done :
      (q : Requeue) (sorted : List Pod) (s : Instance)
      → (after_update env is_ipv4 status revision (q, sorted) s).0 ≡ ok 0
      → (q ≡ 0)
        × (after_update env is_ipv4 status revision (q, sorted)
            ≡ roll_master env is_ipv4 status sorted revision)
  unfolding after_update pure
  after_update_done q sorted s e = (ground arith, ground arith)

  update-IsDone :
      (replicas : List Pod) (s : Instance)
      → ((update_replicas env is_ipv4 replicas revision
            >>= after_update env is_ipv4 status revision)
          s).0
        ≡ ok 0
      → IsDone replicas
          ((update_replicas env is_ipv4 replicas revision
              >>= after_update env is_ipv4 status revision)
            s).1
  update-IsDone replicas s e =
      let update = update_replicas env is_ipv4 replicas revision in
      let ((q, l), updated, last) =
        bind_ok update (after_update env is_ipv4 status revision) s 0 e in
      let (zero, same) = after_update_done q l (update s).1 last in
      let (found, completed) = roll_master_done l (update s).1 (rw same at last) in
      (
        elim (Bool-cases (has_outdated replicas revision)) [
          | inl h ↦
              absurd (
                not_both zero (update_replicas_waits env is_ipv4 revision replicas s q l h updated))
          | inr h ↦ h
        ],
        ((update s).1, found.0, found.1, found.2),
        rw (bind_run update (after_update env is_ipv4 status revision) s (q, l) updated, same)
            completed,
      )
    where
      not_both : {q : Requeue} → q ≡ 0 → q ≢ 5
      not_both z f = omega arith

  -- A step of a rolling update that answers with no waiting has found all replicas on the update
  -- revision, and a master that is on it too; and the last changes that it made are a patch of the
  -- custom resource to the phase `Ready`, with no rolling update, and the event that the rollout is
  -- completed.
  pub update_step-IsDone :
      (replicas : List Pod) (s : Instance)
      → (update_step env is_ipv4 status revision replicas s).0 ≡ ok 0
      → IsDone replicas (update_step env is_ipv4 status revision replicas s).1
  unfolding update_step
  update_step-IsDone replicas s e =
      let verify = verify_updated_replicas env is_ipv4 replicas revision in
      let (first, rest) = or_wait_done env is_ipv4 verify _ s e in
      rw (bind_run verify _ s 0 first) (update-IsDone replicas (verify s).1 rest)
