-- ===== src/Instance/Footprint.antt =====
-- Which calls the methods of `DragonflyInstance` make that only ask.
pub mod Changes
use dragonfly_operator.Prelude.{
  Bool, String, List, [], ◌∷◌, Option, none, some, Bool-cases, inl, inr, ◌==◌,
}
use dragonfly_operator.Kube.{Pod}
use dragonfly_operator.Effects.Calls.{Call, Env, Instance, M}
use dragonfly_operator.Effects.Within.{
  Within, Within-bind, footprint, Goes, Goes-refl, PermitsAsking, get_redis_client-Within,
}
use dragonfly_operator.Instance.Queries.{
  get_stateful_set, get_pods, get_replicas, get_info, is_dataset_loaded, is_pod_ready,
  is_replica_stable, check_replica_role, has_master_role, role_or_error, get_redis_role,
  get_master_candidate,
}
use dragonfly_operator.Instance.Rollout.{Requeue, or_wait}
use dragonfly_operator.Instance.Status.{healthy_masters, master_pods, the_one, get_master}

pub Within-or_wait :
    {p : Call → Bool} {step rest : M Requeue}
    → Within p step
    → Within p rest
    → Within p (or_wait step rest)
Within-or_wait step rest = search (footprint, step, rest)

module _ {p : Call → Bool} (asks : PermitsAsking p) (env : Env) where
  pub get_stateful_set-Within : Within p (get_stateful_set env)
  unfolding get_stateful_set
  get_stateful_set-Within = search (footprint, asks)

  pub get_pods-Within : Within p (get_pods env)
  unfolding get_pods
  get_pods-Within = search (footprint, asks)

  pub get_replicas-Within : Within p (get_replicas env)
  unfolding get_replicas
  get_replicas-Within = search (footprint, asks)

  pub get_info-Within : (ip section : String) → Within p (get_info env ip section)
  unfolding get_info
  get_info-Within ip section = search (footprint, asks, get_redis_client-Within)

  is_dataset_loaded-Within : (pod : Pod) → Within p (is_dataset_loaded env pod)
  unfolding is_dataset_loaded
  is_dataset_loaded-Within pod = search (footprint, get_info-Within)

  pub is_pod_ready-Within : (pod : Pod) → Within p (is_pod_ready env pod)
  unfolding is_pod_ready
  is_pod_ready-Within pod = search (footprint, is_dataset_loaded-Within)

  pub is_replica_stable-Within : (pod : Pod) → Within p (is_replica_stable env pod)
  unfolding is_replica_stable
  is_replica_stable-Within pod = search (footprint, asks, get_redis_client-Within) depth 9

  pub check_replica_role-Within :
      (pod : Pod) (master_ip : String) → Within p (check_replica_role env pod master_ip)
  unfolding check_replica_role
  check_replica_role-Within pod master_ip = search (footprint, get_info-Within)

  pub has_master_role-Within : (c : String) → Within p (has_master_role env c)
  unfolding has_master_role
  has_master_role-Within c = search (footprint, asks)

  role_or_error-Within : (pod : Pod) (role : Option String) → Within p (role_or_error env pod role)
  role_or_error-Within pod none = search footprint
  role_or_error-Within pod (some role) = search footprint

  pub get_redis_role-Within : (pod : Pod) → Within p (get_redis_role env pod)
  unfolding get_redis_role
  get_redis_role-Within pod = search (footprint, get_info-Within, role_or_error-Within)

  pub get_master_candidate-Goes :
      (pod : Pod) (s : Instance) → Goes p s (get_master_candidate env pod s).1
  unfolding get_master_candidate
  get_master_candidate-Goes pod s = elim (Bool-cases (pod.pod_ip == "")) [
    | inl e ↦ rw e (Goes-refl s)
    | inr e ↦ rw e ((get_info-Within pod.pod_ip "replication").at s)
  ]

  healthy_masters-Within : (pods : List Pod) → Within p (healthy_masters env pods)
  unfolding healthy_masters
  healthy_masters-Within [] = search footprint
  healthy_masters-Within (pod ∷ pods) =
      Within-bind (search (footprint, is_pod_ready-Within))
        (λ ready. search (footprint, healthy_masters-Within pods))

  master_pods-Within : Within p (master_pods env)
  unfolding master_pods
  master_pods-Within = search (footprint, asks, get_stateful_set-Within) depth 9

  the_one-Within : (pods : List Pod) → Within p (the_one env pods)
  the_one-Within [] = search footprint
  the_one-Within (pod ∷ []) = search footprint
  the_one-Within (pod ∷ other ∷ pods) = search footprint

  pub get_master-Within : Within p (get_master env)
  unfolding get_master
  get_master-Within = search (footprint, master_pods-Within, healthy_masters-Within, the_one-Within)
