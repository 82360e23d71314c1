-- ===== src/Reconcile/Rollout/Calm/Checks.antt =====
-- The checks of a rolling update pass where nothing goes wrong: `allPodsHealthyAndHaveRole`,
-- `verifyUpdatedReplicas` and `getMaster` (internal/controller/dragonfly_instance.go).
use dragonfly_operator.Prelude.{
  ◌≡◌, refl, ap, ◌∙◌, String, Bool, true, false, ◌||◌, List, [], ◌∷◌, All, if◌then◌else◌,
  Bool-cases, ◌⊎◌, inl, inr,
}
use dragonfly_operator.Kube.{
  replication_ready_condition_type, Pod, Dragonfly, StatefulSet, master as master_role,
  replica as replica_role, stateful_set_revision_label,
}
use dragonfly_operator.Pods.{is_pod_on_latest_version}
use dragonfly_operator.Text.{text_lt}
use dragonfly_operator.Effects.Calls.{Env, Instance, wrapping, pure, patch_pod_status}
use dragonfly_operator.Effects.Actions.{do_list_pods, read_now}
use dragonfly_operator.Effects.Within.{no_delete}
use dragonfly_operator.Effects.Returns.{
  Returns, Returns-next, Returns-pure, Returns-get_df, Returns-gets, Returns-perform,
  Returns-rewrapping, Returns-bind,
}
use dragonfly_operator.Instance.Queries.{
  instance_labels, with_role, get_stateful_set, get_pods, get_replicas, is_pod_ready,
  is_replica_stable,
}
use dragonfly_operator.Instance.Roles.{
  condition_status, has_condition, set_condition, patch_replication_ready_condition, patch_if_gated,
}
use dragonfly_operator.Instance.Status.{
  is_nil, healthy_masters, master_pods, get_master, is_rolling, is_ready_phase,
}
use dragonfly_operator.Instance.Rollout.{
  await_pod, check_pod, check_pods, all_pods_healthy_and_have_role, verify_replica,
  verify_updated_replicas, insert_by_name, sort_by_name,
}
use dragonfly_operator.Reconcile.Rollout.Calm.{
  IsCalmPod, IsCalm, is_pod_ready-Returns, is_replica_stable-Returns,
}

insert_by_name-All :
    (P : Pod → Type 0) (pod : Pod) (pods : List Pod)
    → P pod
    → All P pods
    → All P (insert_by_name pod pods)
unfolding insert_by_name
insert_by_name-All P pod [] p h = (p, tt)
insert_by_name-All P pod (other ∷ pods) p h = elim (Bool-cases (text_lt other.name pod.name)) [
  | inl later ↦ rw later (h.0, insert_by_name-All P pod pods p h.1)
  | inr first ↦ rw first (p, h)
]

sort_by_name-All : (P : Pod → Type 0) (pods : List Pod) → All P pods → All P (sort_by_name pods)
unfolding sort_by_name
sort_by_name-All P [] h = tt
sort_by_name-All P (pod ∷ pods) h =
    insert_by_name-All P pod (sort_by_name pods) h.0 (sort_by_name-All P pods h.1)

module _ {env : Env} {df : Dragonfly} {revision : String} {master : Pod} {replicas : List Pod}
    (is_ipv4 : String → Bool) (calm : IsCalm env df revision master replicas) where
  await_pod-Returns :
      (pod : Pod) (s : Instance) → IsCalmPod pod → Returns no_delete (await_pod env is_ipv4 pod) s 0
  unfolding await_pod
  await_pod-Returns pod s p =
      Returns-bind (wrapping "failed to verify pod readiness" (is_pod_ready env pod)) _
        (Returns-rewrapping _ (is_pod_ready-Returns calm pod s p))
        (λ t e. rw (p.has_role) (Returns-pure 0 t))

  check_pod-Returns :
      (pod : Pod) (s : Instance)
      → IsCalmPod pod
      → Returns no_delete (check_pod env is_ipv4 pod revision) s 0
  unfolding check_pod
  check_pod-Returns pod s p = elim (Bool-cases (is_pod_on_latest_version pod revision)) [
    | inl latest ↦ rw (p.stays, latest) (await_pod-Returns pod s p)
    | inr old ↦ rw (p.stays, old, p.ready) (await_pod-Returns pod s p)
  ]

  check_pods-Returns :
      (pods : List Pod) (s : Instance)
      → All IsCalmPod pods
      → Returns no_delete (check_pods env is_ipv4 pods revision) s 0
  unfolding check_pods
  check_pods-Returns [] s h = Returns-pure 0 s
  check_pods-Returns (pod ∷ pods) s h =
      Returns-bind (check_pod env is_ipv4 pod revision) _ (check_pod-Returns pod s h.0)
        (λ t e. check_pods-Returns pods t h.1)

  get_pods-Returns :
      (s : Instance) → s.df ≡ df → Returns no_delete (get_pods env) s (master ∷ replicas)
  unfolding get_pods
  get_pods-Returns s e = Returns-get_df _ (
      Returns-perform _ _ s refl (
        ap (λ (d : Dragonfly). env.list_pods s.calls d.namespace (instance_labels d)) e
        ∙ calm.list_all s.calls))

  pub get_replicas-Returns :
      (s : Instance) → s.df ≡ df → Returns no_delete (get_replicas env) s replicas
  unfolding get_replicas
  get_replicas-Returns s e = Returns-get_df _ (
      Returns-perform _ _ s refl (
        ap
          (λ (d : Dragonfly).
            env.list_pods s.calls d.namespace (with_role (instance_labels d) replica_role))
          e
        ∙ calm.list_replicas s.calls))

  pub get_stateful_set-Returns :
      (s : Instance)
      → s.df ≡ df
      → (stateful_set : StatefulSet) × Returns no_delete (get_stateful_set env) s stateful_set
        × (stateful_set.update_revision ≡ revision)
  unfolding get_stateful_set
  get_stateful_set-Returns s e =
      let (stateful_set, answered, same) = calm.get_stateful_set s.calls in
      (
        stateful_set,
        Returns-get_df _ (
            Returns-perform _ _ s refl (
              ap (λ (d : Dragonfly). env.get_stateful_set s.calls d.namespace d.name) e
              ∙ answered)),
        same,
      )

  pub all_pods_healthy_and_have_role-Returns :
      (s : Instance)
      → s.df ≡ df
      → Returns no_delete (all_pods_healthy_and_have_role env is_ipv4 revision) s 0
  unfolding all_pods_healthy_and_have_role
  all_pods_healthy_and_have_role-Returns s e =
      Returns-bind (wrapping "failed to get dragonfly pods" (get_pods env)) _
        (Returns-rewrapping _ (get_pods-Returns s e))
        (λ t d.
          check_pods-Returns (sort_by_name (master ∷ replicas)) t
            (sort_by_name-All IsCalmPod (master ∷ replicas) (calm.master_calm, calm.replicas_calm)))

  patch_replication_ready_condition-Returns :
      (pod : Pod) (s : Instance)
      → (patched : Pod) × Returns no_delete
          (patch_replication_ready_condition env is_ipv4 pod true)
          s
          patched
  unfolding patch_replication_ready_condition
  patch_replication_ready_condition-Returns pod s =
      let type = replication_ready_condition_type in
      let now = env.now s.calls in
      let after : Pod = record pod {
        conditions = set_condition type (condition_status true) now pod.conditions;
      } in
      elim (Bool-cases (has_condition type (condition_status true) pod.conditions)) [
        | inl set ↦ (pod, rw set (Returns-pure pod s))
        | inr unset ↦ (
          after,
          rw unset (
              Returns-bind (read_now env) _ (Returns-gets _ s) (λ t e. Returns-rewrapping _ (
                Returns-perform (patch_pod_status pod after) _ t refl
                  (calm.patch_pod_status t.calls pod after)))),
        )
      ]

  patched_by-Returns :
      (gated : Bool) (pod : Pod) (s : Instance)
      → (patched : Pod) × Returns no_delete
          (if gated then patch_replication_ready_condition env is_ipv4 pod true else pure pod)
          s
          patched
  patched_by-Returns true pod s = patch_replication_ready_condition-Returns pod s
  patched_by-Returns false pod s = (pod, Returns-pure pod s)

  patch_if_gated-Returns :
      (pod : Pod) (s : Instance)
      → (patched : Pod) × Returns no_delete (patch_if_gated env is_ipv4 pod true) s patched
  unfolding patch_if_gated
  patch_if_gated-Returns pod s =
      let (patched, answered) =
        patched_by-Returns s.df.spec.enable_replication_readiness_gate pod s in
      (patched, Returns-get_df _ answered)

  verify_replica-Returns :
      (pod : Pod) (s : Instance) → Returns no_delete (verify_replica env is_ipv4 pod revision) s 0
  unfolding verify_replica
  verify_replica-Returns pod s = elim (Bool-cases (is_pod_on_latest_version pod revision)) [
    | inl latest ↦
        let (patched, answered) =
          patch_if_gated-Returns pod
            (wrapping "failed to check if replica is stable" (is_replica_stable env pod) s).1 in
        rw latest (
          Returns-next (wrapping "failed to check if replica is stable" (is_replica_stable env pod))
            _ (Returns-rewrapping _ (is_replica_stable-Returns calm pod s))
            (Returns-next
              (wrapping "failed to patch replication ready condition"
                (patch_if_gated env is_ipv4 pod true))
              _ (Returns-rewrapping _ answered) (Returns-pure 0 _)))
    | inr old ↦ rw old (Returns-pure 0 s)
  ]

  pub verify_updated_replicas-Returns :
      (pods : List Pod) (s : Instance)
      → Returns no_delete (verify_updated_replicas env is_ipv4 pods revision) s 0
  unfolding verify_updated_replicas
  verify_updated_replicas-Returns [] s = Returns-pure 0 s
  verify_updated_replicas-Returns (pod ∷ pods) s =
      Returns-bind (verify_replica env is_ipv4 pod revision) _ (verify_replica-Returns pod s)
        (λ t e. verify_updated_replicas-Returns pods t)

  pub list_masters-Returns :
      (d : Dragonfly) (s : Instance)
      → d ≡ df
      → Returns no_delete
          (wrapping "failed to list pods"
            (do_list_pods env d.namespace (with_role (instance_labels d) master_role)))
          s
          (master ∷ [])
  list_masters-Returns d s e = Returns-rewrapping _ (
      Returns-perform _ _ s refl (
        ap
          (λ (x : Dragonfly).
            env.list_pods s.calls x.namespace (with_role (instance_labels x) master_role))
          e
        ∙ calm.list_masters s.calls))

  -- The one master, whether the updated ones are asked for first or not.
  masters_by-Returns :
      (updated : List Pod) (d : Dragonfly) (s : Instance)
      → d ≡ df
      → (ready : Bool) → (is_nil env updated ≡ true) ⊎ (updated ≡ master ∷ [])
      → Returns no_delete
          (if ready || is_nil env updated
            then wrapping "failed to list pods"
                (do_list_pods env d.namespace (with_role (instance_labels d) master_role))
            else pure updated)
          s
          (master ∷ [])
  masters_by-Returns updated d s e true h = list_masters-Returns d s e
  masters_by-Returns updated d s e false (inl nil) = rw nil (list_masters-Returns d s e)
  masters_by-Returns updated d s e false (inr one) = rw one (Returns-pure (master ∷ []) s)

  abbrev updated_masters : List Pod
  updated_masters = if is_pod_on_latest_version master revision then master ∷ [] else []

  updated_masters_lem : (is_nil env updated_masters ≡ true) ⊎ (updated_masters ≡ master ∷ [])
  updated_masters_lem = elim (Bool-cases (is_pod_on_latest_version master revision)) [
    | inl latest ↦ inr (rw latest refl)
    | inr old ↦ inl (rw old refl)
  ]

  list_updated_masters-Returns :
      (d : Dragonfly) (stateful_set : StatefulSet) (s : Instance)
      → d ≡ df
      → stateful_set.update_revision ≡ revision
      → Returns no_delete
          (wrapping "failed to list pods" (
            do_list_pods env d.namespace (
              (stateful_set_revision_label, stateful_set.update_revision)
              ∷ with_role (instance_labels d) master_role)))
          s
          updated_masters
  list_updated_masters-Returns d stateful_set s e r = Returns-rewrapping _ (
      Returns-perform _ _ s refl (
        ap
          (λ (x : Dragonfly). env.list_pods s.calls x.namespace (
            (stateful_set_revision_label, stateful_set.update_revision)
            ∷ with_role (instance_labels x) master_role))
          e
        ∙ ap
            (λ (x : String).
              env.list_pods s.calls df.namespace
                ((stateful_set_revision_label, x) ∷ with_role (instance_labels df) master_role))
            r
        ∙ calm.list_updated_masters s.calls))

  master_pods-Returns :
      (s : Instance) → s.df ≡ df → Returns no_delete (master_pods env) s (master ∷ [])
  unfolding master_pods
  master_pods-Returns s e =
      let ready = is_ready_phase s.df.status in
      let (stateful_set, answered, same) = get_stateful_set-Returns s e in
      elim (Bool-cases (is_rolling s.df.status)) [
        | inl rolling ↦ Returns-get_df _ (
            rw rolling (
              Returns-bind _ _
                (Returns-bind (wrapping "failed to get statefulset" (get_stateful_set env)) _
                  (Returns-rewrapping _ answered)
                  (λ t d. list_updated_masters-Returns s.df stateful_set t e same))
                (λ t d. masters_by-Returns updated_masters s.df t e ready updated_masters_lem)))
        | inr still ↦ Returns-get_df _ (
            rw still (
              Returns-bind (pure []) _ (Returns-pure [] s)
                (λ t d. masters_by-Returns [] s.df t e ready (inl refl))))
      ]

  healthy_masters-Returns :
      (s : Instance) → Returns no_delete (healthy_masters env (master ∷ [])) s (master ∷ [])
  unfolding healthy_masters
  healthy_masters-Returns s =
      Returns-bind (wrapping "failed to verify master readiness" (is_pod_ready env master)) _
        (Returns-rewrapping _ (is_pod_ready-Returns calm master s calm.master_calm))
        (λ t e. Returns-bind (pure []) _ (Returns-pure [] t) (λ u f. Returns-pure (master ∷ []) u))

  pub get_master-Returns : (s : Instance) → s.df ≡ df → Returns no_delete (get_master env) s master
  unfolding get_master
  get_master-Returns s e = Returns-bind (master_pods env) _ (master_pods-Returns s e) (λ t d.
      Returns-bind (healthy_masters env (master ∷ [])) _ (healthy_masters-Returns t)
        (λ u f. Returns-pure master u))
