-- ===== src/Reconcile/Lifecycle/Safety.antt =====
-- Which calls a run of the pod lifecycle controller makes (`DfPodLifeCycleReconciler.Reconcile`).
use dragonfly_operator.Prelude.{
  String, Bool, List, [], ◌∷◌, Option, none, some, refl, Bool-cases, inl, inr,
}
use dragonfly_operator.Kube.{Pod, Dragonfly}
use dragonfly_operator.Pods.{get_dragonfly_name}
use dragonfly_operator.Election.{MasterCandidate, select_loop}
use dragonfly_operator.Effects.Errors.{Err, Result, ok, err}
use dragonfly_operator.Effects.Calls.{Env, M, History, Instance}
use dragonfly_operator.Effects.Within.{
  Within, Goes, Goes-refl, Goes-trans, Grows, grown, more, Grows-trans, footprint, no_delete,
  no_delete-PermitsAsking, close_all-Grows,
}
use dragonfly_operator.Instance.Queries.{get_master_candidate}
use dragonfly_operator.Instance.Rollout.{Requeue}
use dragonfly_operator.Instance.Footprint.{
  get_pods-Within, is_pod_ready-Within, is_replica_stable-Within, get_redis_role-Within,
  get_master-Within, get_master_candidate-Goes,
}
use dragonfly_operator.Instance.Footprint.Changes.{
  no_delete-PermitsGating, patch_status-Within, configure_replication-Within,
  configure_replica-Within, replica_of_no_one-Within, patch_replication_ready_condition-Within,
  delete_master_role_label-Within, check_and_configure_replicas-Within,
}
use dragonfly_operator.Reconcile.Base.{enter, with_instance}
use dragonfly_operator.Reconcile.Lifecycle.{
  unless_cancelled, ready_or_false, elect_candidate, mark_not_ready, initial, elect, update_gate,
  settle, follow, with_master, reconcile_pod, for_name, for_pod, reconcile,
}

ruleset actions = (
  footprint, no_delete-PermitsAsking, no_delete-PermitsGating, get_pods-Within, is_pod_ready-Within,
  is_replica_stable-Within, get_redis_role-Within, get_master-Within, patch_status-Within,
  configure_replication-Within, configure_replica-Within, replica_of_no_one-Within,
  patch_replication_ready_condition-Within, delete_master_role_label-Within,
  check_and_configure_replicas-Within,
)

unless_cancelled-Within :
    {A : Type 0} (prefix : String) (next : A → M Requeue) (r : Result A)
    → ((a : A) → Within no_delete (next a))
    → Within no_delete (unless_cancelled prefix next r)
unless_cancelled-Within prefix next (ok a) w = w a
unless_cancelled-Within prefix next (err e) w = search footprint

module _ {S : Type 0} (R : S → S → Type 0) (refl_R : (s : S) → R s s)
    (trans_R : (s t u : S) → R s t → R t u → R s u) (is_ready : Pod → S → Bool × S)
    (get_candidate : Pod → S → MasterCandidate × S)
    (ready_R : (p : Pod) (s : S) → R s (is_ready p s).1)
    (candidate_R : (p : Pod) (s : S) → R s (get_candidate p s).1) where
  select_loop-relates :
      (pods : List Pod) (best : Option MasterCandidate) (s : S)
      → R s (select_loop is_ready get_candidate pods best s).1
  unfolding select_loop
  select_loop-relates [] best s = refl_R s
  select_loop-relates (p ∷ pods) best s = elim (Bool-cases (is_ready p s).0) [
    | inl e ↦ rw e (
        trans_R _ _ _ (ready_R p s)
          (trans_R _ _ _ (candidate_R p _) (select_loop-relates pods _ _)))
    | inr e ↦ rw e (trans_R _ _ _ (ready_R p s) (select_loop-relates pods best _))
  ]

module _ (env : Env) (is_ipv4 : String → Bool) where
  elect_candidate-Within : (pods : List Pod) → Within no_delete (elect_candidate env is_ipv4 pods)
  unfolding elect_candidate
  elect_candidate-Within pods = record {
    at = λ s.
        select_loop-relates (λ (s t : Instance). Goes no_delete s t) Goes-refl
          (λ s t u a b. Goes-trans a b) (ready_or_false env is_ipv4) (get_master_candidate env)
          (λ p s. (is_pod_ready-Within no_delete-PermitsAsking env p).at s)
          (get_master_candidate-Goes no_delete-PermitsAsking env) pods none s;
  }

  mark_not_ready-Within : Within no_delete (mark_not_ready env is_ipv4)
  unfolding mark_not_ready
  mark_not_ready-Within = search actions depth 8

  initial-Within :
      (pod_ready : Bool) (candidate : Option Pod)
      → Within no_delete (initial env is_ipv4 pod_ready candidate)
  initial-Within pod_ready none = mark_not_ready-Within
  initial-Within pod_ready (some candidate) = search (actions, unless_cancelled-Within) depth 8

  elect-Within : (pod_ready : Bool) (e : Err) → Within no_delete (elect env is_ipv4 pod_ready e)
  unfolding elect
  elect-Within pod_ready e = search (actions, elect_candidate-Within, initial-Within) depth 8

  update_gate-Within : (pod : Pod) → Within no_delete (update_gate env is_ipv4 pod)
  unfolding update_gate
  update_gate-Within pod = search actions depth 10

  settle-Within : (pod current : Pod) → Within no_delete (settle env is_ipv4 pod current)
  unfolding settle
  settle-Within pod current = search (actions, unless_cancelled-Within, update_gate-Within) depth 10

  follow-Within :
      (pod : Pod) (pod_ready : Bool) (current : Pod)
      → Within no_delete (follow env is_ipv4 pod pod_ready current)
  unfolding follow
  follow-Within pod pod_ready current = search (actions, settle-Within) depth 9

  with_master-Within :
      (pod : Pod) (pod_ready : Bool) (found : Result Pod)
      → Within no_delete (with_master env is_ipv4 pod pod_ready found)
  with_master-Within pod pod_ready (ok current) = follow-Within pod pod_ready current
  with_master-Within pod pod_ready (err e) = search (footprint, elect-Within)

  pub reconcile_pod-Within : (pod : Pod) → Within no_delete (reconcile_pod env is_ipv4 pod)
  unfolding reconcile_pod
  reconcile_pod-Within pod = search (actions, with_master-Within) depth 7

  enter-Grows :
      (body : M Requeue)
      → Within no_delete body
      → (calls : History) (found : Result Dragonfly)
      → Grows no_delete calls (enter body calls found).1
  unfolding enter
  enter-Grows body w calls (err e) = grown
  enter-Grows body w calls (ok df) =
      let (r, s) = body (record { df = df; clients = []; calls = calls }) in
      Grows-trans (w.at (record { df = df; clients = []; calls = calls })).grows
        (close_all-Grows no_delete-PermitsAsking s.clients s.calls)

  for_name-Grows :
      (pod : Pod) (name : Option String) (calls : History)
      → Grows no_delete calls (for_name env is_ipv4 pod name calls).1
  unfolding with_instance
  for_name-Grows pod none calls = grown
  for_name-Grows pod (some name) calls =
      Grows-trans (more _ refl grown)
        (enter-Grows (reconcile_pod env is_ipv4 pod) (reconcile_pod-Within pod) _ _)

  for_pod-Grows :
      (found : Result Pod) (calls : History)
      → Grows no_delete calls (for_pod env is_ipv4 found calls).1
  for_pod-Grows (err e) calls = grown
  for_pod-Grows (ok pod) calls = for_name-Grows pod (get_dragonfly_name pod) calls

  -- Whatever the API server and the pods answer, one run of the reconciler of the pods' life cycle
  -- only adds calls to the history, and none of them deletes a pod.
  pub reconcile-no_delete :
      (namespace name : String) (calls : History)
      → Grows no_delete calls (reconcile env is_ipv4 namespace name calls).1
  unfolding reconcile
  reconcile-no_delete namespace name calls = Grows-trans (more _ refl grown) (for_pod-Grows _ _)
