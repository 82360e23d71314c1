-- ===== src/Reconcile/Rollout/Liveness.antt =====
-- A rolling update ends where nothing goes wrong (`DragonflyReconciler.Reconcile`).
use mathlib.Core.List.{Memᴰ, Permᴰ}
use dragonfly_operator.Prelude.{
  ℕ, zero, suc, ◌-◌, ◌≤◌, ◌≡◌, refl, ap, ◌∙◌, String, Bool, true, false, List, [], ◌∷◌, map, none,
  arith, Bool-cases, inl, inr,
}
use dragonfly_operator.Kube.{Pod, Dragonfly, DragonflyStatus}
use dragonfly_operator.Pods.{is_pod_on_latest_version, has_outdated}
use dragonfly_operator.Effects.Errors.{ok}
use dragonfly_operator.Effects.Calls.{Env, Instance, record_event}
use dragonfly_operator.Effects.Within.{grown, more, Grows-trans}
use dragonfly_operator.Instance.Rollout.{find_outdated, sort_by_name}
use dragonfly_operator.Instance.Rollout.Sorting.{has_outdated-sort_by_name, sort_by_name-Memᴰ}
use dragonfly_operator.Instance.Rollout.Deletions.{find_outdated_lem}
use dragonfly_operator.Instance.Rollout.Replacement.{
  find_outdated_some, some_of, find_outdated-Memᴰ,
}
use dragonfly_operator.Reconcile.Rollout.{roll_out}
use dragonfly_operator.Reconcile.Rollout.Calm.{IsCalm}
use dragonfly_operator.Reconcile.Rollout.Path.{roll_out-Reaches}
use dragonfly_operator.Reconcile.Rollout.Steps.{
  completed, Completes, next_step-deletes, roll_out-Completes,
}
use dragonfly_operator.Reconcile.Rollout.Deleting.{Deletes}
use dragonfly_operator.Reconcile.Rollout.Takeover.{roll_out-Deletes}
use dragonfly_operator.Reconcile.Rollout.Standing.{
  standing, respond, count_old, respond-Grows, respond-Deletes, count_old-come_back,
  count_old-Permᴰ, has_outdated-count_old, count_old-has_outdated,
}

find_outdated-none :
    (revision : String) (pods : List Pod)
    → has_outdated pods revision ≡ false
    → find_outdated pods revision ≡ none
unfolding has_outdated find_outdated
find_outdated-none revision [] h = refl
find_outdated-none revision (pod ∷ pods) h = ground (arith, find_outdated-none revision pods)

has_outdated_parts :
    (pod : Pod) (pods : List Pod) (revision : String)
    → has_outdated (pod ∷ pods) revision ≡ false
    → (is_pod_on_latest_version pod revision ≡ true) × (has_outdated pods revision ≡ false)
unfolding has_outdated
has_outdated_parts pod pods revision h = ground arith

no_outdated :
    (pod : Pod) (pods : List Pod) (revision : String)
    → is_pod_on_latest_version pod revision ≡ true
    → has_outdated pods revision ≡ false
    → has_outdated (pod ∷ pods) revision ≡ false
unfolding has_outdated
no_outdated pod pods revision latest h = rw latest h

module _ {env : Env} {df : Dragonfly} {revision : String} {master : Pod} {replicas : List Pod}
    (is_ipv4 : String → Bool) (calm : IsCalm env df revision master replicas)
    (status : DragonflyStatus) (s : Instance) (same : s.df ≡ df) where
  roll_out_done :
      has_outdated (master ∷ replicas) revision ≡ false
      → Completes (roll_out env is_ipv4 status) s (completed status df)
  roll_out_done h =
      let (latest, settled) = has_outdated_parts master replicas revision h in
      roll_out-Completes is_ipv4 calm status latest s same (
        find_outdated-none revision (sort_by_name replicas)
          (has_outdated-sort_by_name replicas revision ∙ settled))

module _ {env : Env} {df : Dragonfly} {revision : String} {master : Pod} {replicas : List Pod}
    (is_ipv4 : String → Bool) (calm : IsCalm env df revision master replicas)
    (status : DragonflyStatus) (s : Instance) (same : s.df ≡ df) (fresh : s.calls ≡ []) where
  abbrev pods_before : List Pod
  pods_before = master ∷ replicas

  -- A reconciliation that deletes an outdated pod leaves one less.
  count_old-Deletes :
      (pod : Pod)
      → Memᴰ pod pods_before
      → is_pod_on_latest_version pod revision ≡ false
      → Deletes (roll_out env is_ipv4 status) s pod
      → suc (
          count_old
            (respond (roll_out env is_ipv4 status s).1.calls (map (standing revision) pods_before)))
        ≤ count_old (map (standing revision) pods_before)
  count_old-Deletes pod here old d =
      rw
        (respond-Deletes (roll_out env is_ipv4 status) s pod (map (standing revision) pods_before)
          fresh d)
        (count_old-come_back revision pod pods_before here old)

  -- Outdated replicas come first.
  replica_round :
      has_outdated replicas revision ≡ true
      → suc (
          count_old
            (respond (roll_out env is_ipv4 status s).1.calls (map (standing revision) pods_before)))
        ≤ count_old (map (standing revision) pods_before)
  replica_round h =
      let some_outdated = has_outdated-sort_by_name replicas revision ∙ h in
      let (pod, found) =
        some_of _ (find_outdated_some (sort_by_name replicas) revision some_outdated) in
      let here =
        sort_by_name-Memᴰ replicas
          (find_outdated-Memᴰ (sort_by_name replicas) revision pod found) in
      let old = find_outdated_lem revision env is_ipv4 (sort_by_name replicas) pod found in
      let (t, way) = roll_out-Reaches is_ipv4 calm status s same in
      let (u, quiet, run) = next_step-deletes is_ipv4 calm status pod t (way.df ∙ same) found in
      count_old-Deletes pod (Memᴰ.tail here) old (record {
        earlier = record_event "Rollout" "Deleting replica" ∷ u.calls;
        before = Grows-trans way.grows (more _ refl quiet);
        after = rw (way.run ∙ run) grown;
      })

  -- Then the master.
  master_round :
      is_pod_on_latest_version master revision ≡ false
      → has_outdated replicas revision ≡ false
      → suc (
          count_old
            (respond (roll_out env is_ipv4 status s).1.calls (map (standing revision) pods_before)))
        ≤ count_old (map (standing revision) pods_before)
  master_round old h =
      let settled = has_outdated-sort_by_name replicas revision ∙ h in
      count_old-Deletes master (Memᴰ.head refl) old (
        roll_out-Deletes is_ipv4 calm status old s same
          (find_outdated-none revision (sort_by_name replicas) settled) settled)

  round_le :
      count_old
        (respond (roll_out env is_ipv4 status s).1.calls (map (standing revision) pods_before))
      ≤ count_old (map (standing revision) pods_before) - 1
  round_le = elim (Bool-cases (has_outdated replicas revision)) [
    | inl some_left ↦ omega (arith, replica_round some_left)
    | inr settled ↦ elim (Bool-cases (is_pod_on_latest_version master revision)) [
      | inl latest ↦
          let none_left = no_outdated master replicas revision latest settled in
          let done = roll_out_done is_ipv4 calm status s same none_left in
          let none_gone =
            respond-Grows s.calls (roll_out env is_ipv4 status s).1.calls
              (map (standing revision) pods_before) done.grows
            ∙ ap (λ calls. respond calls (map (standing revision) pods_before)) fresh in
          rw none_gone (omega (arith, count_old-has_outdated revision pods_before none_left))
      | inr old ↦ omega (arith, master_round old settled)
    ]
  ]

module _ (revision : String) (is_ipv4 : String → Bool) (df : Dragonfly) where
  -- Reconciliations of the instance, one after the other, each with its own history, from the first
  -- pods to the last ones. Between them the deleted pods come back, the pods may be listed in another
  -- order, and another one may be the master.
  pub data Rounds : ℕ → List Pod → List Pod → Type 0 where
    start : {pods : List Pod} → Rounds zero pods pods
    round :
        {n : ℕ} {master : Pod} {replicas next last : List Pod} (env : Env) (s : Instance)
        → IsCalm env df revision master replicas
        → s.df ≡ df
        → s.calls ≡ []
        → Permᴰ
            (respond
              (roll_out env is_ipv4 df.status s).1.calls
              (map (standing revision) (master ∷ replicas)))
            (map (standing revision) next)
        → Rounds n next last
        → Rounds (suc n) (master ∷ replicas) last

  count_old-Rounds :
      {n : ℕ} {pods last : List Pod}
      → Rounds n pods last
      → count_old (map (standing revision) last) ≤ count_old (map (standing revision) pods) - n
  count_old-Rounds start = omega arith
  count_old-Rounds (round env s calm same fresh listed rounds) = omega (
    arith,
    round_le is_ipv4 calm df.status s same fresh,
    count_old-Permᴰ listed,
    count_old-Rounds rounds,
  )

  -- A rolling update ends where nothing goes wrong: if in every reconciliation there is one master, all
  -- pods are there, healthy and answering, and no request is refused (`IsCalm`), and a deleted pod comes
  -- back on the update revision before the next one (`Rounds`), then after as many reconciliations as
  -- pods were outdated, the master among them, or more, the next one answers with no waiting, and the
  -- custom resource has the phase `Ready` and no rolling update.
  pub roll_out-completed :
      {n : ℕ} {pods last : List Pod} {master : Pod}
      → Rounds n pods (master ∷ last)
      → count_old (map (standing revision) pods) ≤ n
      → (env : Env) (s : Instance) → IsCalm env df revision master last
      → s.df ≡ df
      → ((roll_out env is_ipv4 df.status s).0 ≡ ok 0)
        × ((roll_out env is_ipv4 df.status s).1.df ≡ completed df.status df)
  roll_out-completed {last} {master} rounds enough env s calm same =
      let none_left =
        has_outdated-count_old revision (master ∷ last) (omega (arith, count_old-Rounds rounds)) in
      let done = roll_out_done is_ipv4 calm df.status s same none_left in (done.ended, done.df)
