-- ===== src/Instance/Rollout/Gate.antt =====
-- When the pods of an instance let a rolling update go on (`allPodsHealthyAndHaveRole`).
use dragonfly_operator.Prelude.{
  String, Bool, true, false, ◌&&◌, ◌||◌, List, [], ◌∷◌, ◌≡◌, ◌∙◌, ap, arith, if◌then◌else◌, All,
  nat_eq, ◌⊎◌, inl, inr,
}
use dragonfly_operator.Text.{text_lt}
use dragonfly_operator.Kube.{Pod}
use dragonfly_operator.Pods.{is_healthy, is_terminating, role_exists}
use dragonfly_operator.Effects.Errors.{ok}
use dragonfly_operator.Effects.Calls.{Env, M, Instance, ◌>>=◌, pure}
use dragonfly_operator.Effects.Outcome.{bind_ok}
use dragonfly_operator.Instance.Queries.{instance_labels, get_pods}
use dragonfly_operator.Instance.Queries.Health.{is_pod_ready_lem}
use dragonfly_operator.Instance.Rollout.{
  insert_by_name, await_pod, check_pod, check_pods, or_wait, Requeue, sort_by_name,
  all_pods_healthy_and_have_role,
}

-- The pod is on its way out, or healthy and with a role.
abbrev pub is_settled : Pod → Bool
is_settled pod = is_terminating pod || is_healthy pod && role_exists pod

module _ (env : Env) (is_ipv4 : String → Bool) where
  await_pod_settled :
      (pod : Pod) (s : Instance)
      → (await_pod env is_ipv4 pod s).0 ≡ ok 0
      → is_healthy pod && role_exists pod ≡ true
  unfolding await_pod ◌>>=◌
  await_pod_settled pod s e = ground (arith, (is_pod_ready_lem env pod s).0)

  check_pod_settled :
      (pod : Pod) (revision : String) (s : Instance)
      → (check_pod env is_ipv4 pod revision s).0 ≡ ok 0
      → is_settled pod ≡ true
  unfolding check_pod ◌>>=◌
  check_pod_settled pod revision s e = ground (arith, await_pod_settled pod s)

  waited :
      (requeue : Requeue) (rest : M Requeue) (s : Instance)
      → ((if nat_eq requeue 0 then rest else pure requeue) s).0 ≡ ok 0
      → (requeue ≡ 0) × ((rest s).0 ≡ ok 0)
  unfolding pure
  waited requeue rest s e = (ground arith, ground arith)

  pub or_wait_done :
      (step rest : M Requeue) (s : Instance)
      → (or_wait step rest s).0 ≡ ok 0
      → ((step s).0 ≡ ok 0) × ((rest (step s).1).0 ≡ ok 0)
  or_wait_done step rest s e =
      let (requeue, first, second) = bind_ok step _ s 0 e in
      let (zero, last) = waited requeue rest (step s).1 second in (first ∙ ap ok zero, last)

  -- Where the loop asks for no waiting, all pods are settled.
  check_pods_settled :
      (pods : List Pod) (revision : String) (s : Instance)
      → (check_pods env is_ipv4 pods revision s).0 ≡ ok 0
      → All (λ pod. is_settled pod ≡ true) pods
  unfolding check_pods
  check_pods_settled [] revision s e = tt
  check_pods_settled (pod ∷ pods) revision s e =
      let (first, rest) = or_wait_done _ _ s e in
      (check_pod_settled pod revision s first, check_pods_settled pods revision _ rest)

  All-if :
      (P : Pod → Type 0) (b : Bool) (pods others : List Pod)
      → All P (if b then pods else others)
      → All P pods ⊎ All P others
  All-if P true pods others h = inl h
  All-if P false pods others h = inr h

  All-insert_by_name :
      (P : Pod → Type 0) (pod : Pod) (pods : List Pod)
      → All P (insert_by_name pod pods)
      → P pod × All P pods
  unfolding insert_by_name
  All-insert_by_name P pod [] h = h
  All-insert_by_name P pod (p ∷ pods) h =
      elim (All-if P (text_lt p.name pod.name) (p ∷ insert_by_name pod pods) (pod ∷ p ∷ pods) h) [
        | inl (a, b) ↦ let (c, d) = All-insert_by_name P pod pods b in (c, (a, d))
        | inr g ↦ g
      ]

  pub All-sort_by_name :
      (P : Pod → Type 0) (pods : List Pod) → All P (sort_by_name pods) → All P pods
  unfolding sort_by_name
  All-sort_by_name P [] h = h
  All-sort_by_name P (pod ∷ pods) h =
      let (a, b) = All-insert_by_name P pod (sort_by_name pods) h in (a, All-sort_by_name P pods b)

  -- A rolling update goes on, with no waiting, only if every pod that the API server lists for the
  -- instance is terminating, or is healthy and has a role.
  pub all_pods_healthy_and_have_role_lem :
      (revision : String) (pods : List Pod) (s : Instance)
      → env.list_pods s.calls s.df.namespace (instance_labels s.df) ≡ ok pods
      → (all_pods_healthy_and_have_role env is_ipv4 revision s).0 ≡ ok 0
      → All (λ pod. is_settled pod ≡ true) pods
  unfolding all_pods_healthy_and_have_role get_pods ◌>>=◌
  all_pods_healthy_and_have_role_lem revision pods s listed e =
      All-sort_by_name _ pods (check_pods_settled (sort_by_name pods) revision _ (rw listed at e))
