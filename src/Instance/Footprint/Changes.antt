-- ===== src/Instance/Footprint/Changes.antt =====
-- Which calls the methods make that give roles, write the status or check on a rolling update.
use dragonfly_operator.Prelude.{◌≡◌, refl, Bool, true, String, List, [], ◌∷◌, Option, none, some}
use dragonfly_operator.Kube.{Pod, DragonflyStatus}
use dragonfly_operator.Effects.Errors.{Result, ok, err}
use dragonfly_operator.Effects.Calls.{Call, Env, patch_pod_status}
use dragonfly_operator.Effects.Within.{
  Within, Within-bind, Within-if, footprint, no_delete, PermitsAsking, no_delete-PermitsAsking,
  PermitsChanging, no_delete-PermitsChanging, get_redis_client-Within,
}
use dragonfly_operator.Instance.Roles.{
  kill_victim, kill_clients, kill_listed, disconnect_clients, disconnect_old_master, config_cron,
  set_cron, expect_ok, victim, configure_replica, replica_of_no_one,
  patch_replication_ready_condition, patch_if_gated, delete_role_label,
}
use dragonfly_operator.Instance.Status.{patch_status, detect_rolling_update}
use dragonfly_operator.Instance.Replication.{
  patch_stable_if_gated, configure_other, configure_others, configure_replication, repoint,
  check_replica, check_replicas, check_and_configure_replicas, delete_role_labels,
  delete_master_role_label,
}
use dragonfly_operator.Instance.Rollout.{
  verify_replica, verify_updated_replicas, follow_one, follow_master,
}
use dragonfly_operator.Instance.Footprint.{
  get_stateful_set-Within, get_pods-Within, is_pod_ready-Within, is_replica_stable-Within,
  check_replica_role-Within, has_master_role-Within, Within-or_wait,
}

module _ {p : Call → Bool} (changes : PermitsChanging p) (env : Env) (is_ipv4 : String → Bool) where
  config_cron-Within :
      (c failure : String) (schedule : String → String) (cron : Option String)
      → Within p (config_cron env is_ipv4 c failure schedule cron)
  config_cron-Within c failure schedule none = search footprint
  config_cron-Within c failure schedule (some cron) = search (footprint, changes)

  pub set_cron-Within :
      (c failure : String) (schedule : String → String)
      → Within p (set_cron env is_ipv4 c failure schedule)
  unfolding set_cron
  set_cron-Within c failure schedule = search (footprint, config_cron-Within)

  pub expect_ok-Within : (failure resp : String) → Within p (expect_ok env is_ipv4 failure resp)
  unfolding expect_ok
  expect_ok-Within failure resp = search footprint

-- The readiness condition of pods may be written.
abbrev pub PermitsGating : (Call → Bool) → Type 0
PermitsGating p = (before after : Pod) → p (patch_pod_status before after) ≡ true

pub no_delete-PermitsGating : PermitsGating no_delete
no_delete-PermitsGating before after = refl

module _ {p : Call → Bool} (asks : PermitsAsking p) (gating : PermitsGating p) (env : Env)
    (is_ipv4 : String → Bool) where
  pub patch_replication_ready_condition-Within :
      (pod : Pod) (ready : Bool)
      → Within p (patch_replication_ready_condition env is_ipv4 pod ready)
  unfolding patch_replication_ready_condition
  patch_replication_ready_condition-Within pod ready = search (footprint, gating)

  pub patch_if_gated-Within :
      (pod : Pod) (ready : Bool) → Within p (patch_if_gated env is_ipv4 pod ready)
  unfolding patch_if_gated
  patch_if_gated-Within pod ready = search (footprint, patch_replication_ready_condition-Within)

  verify_replica-Within :
      (replica : Pod) (revision : String) → Within p (verify_replica env is_ipv4 replica revision)
  unfolding verify_replica
  verify_replica-Within replica revision =
      search (footprint, is_replica_stable-Within, asks, patch_if_gated-Within) depth 8

  pub verify_updated_replicas-Within :
      (replicas : List Pod) (revision : String)
      → Within p (verify_updated_replicas env is_ipv4 replicas revision)
  unfolding verify_updated_replicas
  verify_updated_replicas-Within [] revision = search footprint
  verify_updated_replicas-Within (replica ∷ replicas) revision =
      Within-or_wait (verify_replica-Within replica revision)
        (verify_updated_replicas-Within replicas revision)

ruleset queries = (
  footprint, no_delete-PermitsAsking, no_delete-PermitsChanging, no_delete-PermitsGating,
  get_redis_client-Within, get_stateful_set-Within, get_pods-Within, is_pod_ready-Within,
  is_replica_stable-Within, check_replica_role-Within, has_master_role-Within,
)

module _ (env : Env) (is_ipv4 : String → Bool) where
  kill_victim-Within :
      (c : String) (addr : Option String) → Within no_delete (kill_victim env is_ipv4 c addr)
  kill_victim-Within c none = search footprint
  kill_victim-Within c (some addr) = search footprint

  kill_clients-Within :
      (c : String) (lines : List String) → Within no_delete (kill_clients env is_ipv4 c lines)
  unfolding kill_clients
  kill_clients-Within c [] = search footprint
  kill_clients-Within c (line ∷ lines) =
      Within-bind (kill_victim-Within c (victim line)) (λ _. kill_clients-Within c lines)

  kill_listed-Within :
      (c : String) (listed : Result String) → Within no_delete (kill_listed env is_ipv4 c listed)
  kill_listed-Within c (err e) = search footprint
  kill_listed-Within c (ok lines) = search (footprint, kill_clients-Within)

  disconnect_clients-Within : (c : String) → Within no_delete (disconnect_clients env is_ipv4 c)
  unfolding disconnect_clients
  disconnect_clients-Within c = search (footprint, kill_listed-Within)

  disconnect_old_master-Within :
      (c : String) (was_master : Bool) (patched : Pod)
      → Within no_delete (disconnect_old_master env is_ipv4 c was_master patched)
  unfolding disconnect_old_master
  disconnect_old_master-Within c was_master patched = search (footprint, disconnect_clients-Within)

  pub replica_of_no_one-Within : (pod : Pod) → Within no_delete (replica_of_no_one env is_ipv4 pod)
  unfolding replica_of_no_one
  replica_of_no_one-Within pod = search (queries, set_cron-Within, expect_ok-Within) depth 8

  pub configure_replica-Within :
      (pod : Pod) (ip : String) → Within no_delete (configure_replica env is_ipv4 pod ip)
  unfolding configure_replica
  configure_replica-Within pod ip =
      search (queries, set_cron-Within, expect_ok-Within, disconnect_old_master-Within) depth 11

  delete_role_label-Within : (pod : Pod) → Within no_delete (delete_role_label env is_ipv4 pod)
  unfolding delete_role_label
  delete_role_label-Within pod = search (queries, patch_if_gated-Within)

  pub patch_status-Within : (status : DragonflyStatus) → Within no_delete (patch_status env status)
  unfolding patch_status
  patch_status-Within status = search footprint

  pub detect_rolling_update-Within : Within no_delete (detect_rolling_update env)
  unfolding detect_rolling_update
  detect_rolling_update-Within = search (queries, patch_status-Within) depth 9

  patch_stable_if_gated-Within :
      (pod : Pod) → Within no_delete (patch_stable_if_gated env is_ipv4 pod)
  unfolding patch_stable_if_gated
  patch_stable_if_gated-Within pod = search (queries, patch_if_gated-Within) depth 7

  configure_other-Within :
      (master pod : Pod) → Within no_delete (configure_other env is_ipv4 master pod)
  unfolding configure_other
  configure_other-Within master pod =
      search (queries, configure_replica-Within, patch_stable_if_gated-Within) depth 7

  configure_others-Within :
      (master : Pod) (pods : List Pod) → Within no_delete (configure_others env is_ipv4 master pods)
  unfolding configure_others
  configure_others-Within master [] = search footprint
  configure_others-Within master (pod ∷ pods) =
      Within-bind (configure_other-Within master pod) (λ _. configure_others-Within master pods)

  pub configure_replication-Within :
      (master : Pod) → Within no_delete (configure_replication env is_ipv4 master)
  unfolding configure_replication
  configure_replication-Within master =
      search
        (
          queries, patch_status-Within, replica_of_no_one-Within, patch_if_gated-Within,
          configure_others-Within,
        )
        depth 12

  repoint-Within :
      (pod : Pod) (master_ip : String) → Within no_delete (repoint env is_ipv4 pod master_ip)
  unfolding repoint
  repoint-Within pod master_ip = search (queries, configure_replica-Within) depth 7

  check_replica-Within :
      (pod : Pod) (master_ip : String) → Within no_delete (check_replica env is_ipv4 pod master_ip)
  unfolding check_replica
  check_replica-Within pod master_ip =
      search (queries, repoint-Within, configure_replica-Within) depth 8

  check_replicas-Within :
      (pods : List Pod) (master_ip : String)
      → Within no_delete (check_replicas env is_ipv4 pods master_ip)
  unfolding check_replicas
  check_replicas-Within [] master_ip = search footprint
  check_replicas-Within (pod ∷ pods) master_ip =
      Within-bind (check_replica-Within pod master_ip) (λ _. check_replicas-Within pods master_ip)

  pub check_and_configure_replicas-Within :
      (master_ip : String) → Within no_delete (check_and_configure_replicas env is_ipv4 master_ip)
  unfolding check_and_configure_replicas
  check_and_configure_replicas-Within master_ip = search (queries, check_replicas-Within)

  delete_role_labels-Within :
      (pods : List Pod) → Within no_delete (delete_role_labels env is_ipv4 pods)
  unfolding delete_role_labels
  delete_role_labels-Within [] = search footprint
  delete_role_labels-Within (pod ∷ pods) =
      Within-if _
        (λ _. Within-bind (delete_role_label-Within pod) (λ _. delete_role_labels-Within pods))
        (λ _. delete_role_labels-Within pods)

  pub delete_master_role_label-Within : Within no_delete (delete_master_role_label env is_ipv4)
  unfolding delete_master_role_label
  delete_master_role_label-Within = search (queries, delete_role_labels-Within)

  follow_one-Within :
      (new_master replica : Pod) → Within no_delete (follow_one env is_ipv4 new_master replica)
  unfolding follow_one
  follow_one-Within new_master replica = search (queries, configure_replica-Within) depth 9

  pub follow_master-Within :
      (new_master : Pod) (replicas : List Pod)
      → Within no_delete (follow_master env is_ipv4 new_master replicas)
  unfolding follow_master
  follow_master-Within new_master [] = search footprint
  follow_master-Within new_master (replica ∷ replicas) =
      Within-bind (follow_one-Within new_master replica)
        (λ _. follow_master-Within new_master replicas)
