-- ===== src/Tests/Rollouts.antt =====
-- The theorem on the end of a rolling update at a concrete cluster.
use mathlib.Core.List.{Permᴰ}
use dragonfly_operator.Prelude.{map, ◌≡◌, refl, String, List, [], ◌∷◌, ◌==◌, if◌then◌else◌, arith}
use dragonfly_operator.Prelude.Dict.{lookup, lookup_text, insert}
use dragonfly_operator.Text.{split, split_two, trim_space, trim_suffix_cr, has_prefix, text_lt}
use dragonfly_operator.Kube.{Pod, role_label_key, stateful_set_revision_label}
use dragonfly_operator.Pods.{
  get_updated_replica, is_running_and_ready, is_ready, is_terminating, has_disruption_target,
  role_exists, is_pod_on_latest_version, has_outdated,
}
use dragonfly_operator.Info.{parse_info_to_map}
use dragonfly_operator.Effects.Errors.{ok}
use dragonfly_operator.Effects.Calls.{Env, ◌>>=◌}
use dragonfly_operator.Instance.Queries.{
  is_loading, is_syncing, get_stateful_set, get_replicas, get_pods, get_info, is_dataset_loaded,
  is_pod_ready, is_replica_stable,
}
use dragonfly_operator.Instance.Rollout.{
  updated_master, follow_master, follow_one, update_replicas, replace_one, find_outdated,
  sort_by_name, insert_by_name, verify_updated_replicas, verify_replica, has_terminating,
  all_pods_healthy_and_have_role, check_pods, check_pod, await_pod,
}
use dragonfly_operator.Instance.Roles.{
  mark_master, set_cron, expect_ok, repl_takeover, patch_if_gated,
}
use dragonfly_operator.Reconcile.Rollout.{
  roll_out, roll_replicas, update_step, after_update, roll_master,
}
use dragonfly_operator.Reconcile.Rollout.Calm.{IsLoaded, IsCalmPod, IsCalm}
use dragonfly_operator.Reconcile.Rollout.Steps.{completed}
use dragonfly_operator.Reconcile.Rollout.Standing.{Standing, standing, respond, count_old}
use dragonfly_operator.Reconcile.Rollout.Liveness.{start, round, roll_out-completed}
use dragonfly_operator.Effects.Actions.{get_redis_client}
use dragonfly_operator.Instance.Status.{get_master, master_pods, healthy_masters}
use dragonfly_operator.Tests.World.{sample_env, sample_df, fresh, master_pod, outdated_pod, is_ipv4}

abbrev on : String → Pod → Pod
on revision pod = record pod { labels = ("controller-revision-hash", revision) ∷ pod.labels }

abbrev old_master : Pod
old_master = on "old" master_pod

abbrev listed_masters : Pod → String → List Pod
listed_masters master revision =
    if revision == ""
    then master ∷ []
    else if is_pod_on_latest_version master revision
    then master ∷ []
    else []

abbrev listed_with : Pod → Pod → String → String → List Pod
listed_with master replica role revision =
    if role == "master"
    then listed_masters master revision
    else if role == "replica"
    then replica ∷ []
    else master ∷ replica ∷ []

-- The master and one replica, both healthy.
abbrev env_with : Pod → Pod → Env
env_with master replica = record sample_env {
  list_pods = λ h namespace labels. ok (
      listed_with master replica (lookup_text role_label_key labels)
        (lookup_text stateful_set_revision_label labels));
}

abbrev reply : String
reply = "role:master\r\nloading:0\r\nmaster_link_status:up\r\n"

reply-IsLoaded : IsLoaded reply
unfolding is_loading is_syncing parse_info_to_map lookup split trim_space has_prefix split_two
    insert trim_suffix_cr
reply-IsLoaded = record { loaded = refl; stable = refl; given = refl }

pod_calm :
    (revision : String) → IsCalmPod (on revision master_pod) × IsCalmPod (on revision outdated_pod)
unfolding is_running_and_ready is_ready is_terminating has_disruption_target role_exists lookup
pod_calm revision = (
  record { ready = refl; stays = refl; has_role = refl; has_ip = refl },
  record { ready = refl; stays = refl; has_role = refl; has_ip = refl },
)

env_with-IsCalm :
    (master replica : Pod)
    → IsCalmPod master
    → IsCalmPod replica
    → IsCalm (env_with master replica) sample_df "new" master (replica ∷ [])
unfolding lookup
env_with-IsCalm master replica master_calm replica_calm = record {
  get_stateful_set = λ h. (_, refl, refl);
  list_all = λ h. refl;
  list_masters = λ h. refl;
  list_updated_masters = λ h. refl;
  list_replicas = λ h. refl;
  replies = λ h ip section. (reply, refl, reply-IsLoaded);
  ping = λ h ip. refl;
  delete_pod = λ h pod. refl;
  patch_pod_status = λ h before after. refl;
  patch_pod = λ h before after. refl;
  takeover = λ h ip timeout. refl;
  config_set = λ h ip key value. refl;
  patch_status = λ h before after. refl;
  master_calm = master_calm;
  replicas_calm = (replica_calm, tt);
  complete = refl;
}

-- The pods after a round.
abbrev after_round : Pod → Pod → List Standing
after_round master replica =
    respond (roll_out (env_with master replica) is_ipv4 sample_df.status fresh).1.calls
      (map (standing "new") (master ∷ replica ∷ []))

-- The replica is deleted.
first_round :
    after_round old_master (on "old" outdated_pod)
    ≡ map (standing "new") (old_master ∷ on "new" outdated_pod ∷ [])
unfolding roll_out roll_replicas update_step after_update update_replicas replace_one find_outdated
    sort_by_name insert_by_name verify_updated_replicas verify_replica has_terminating
    all_pods_healthy_and_have_role check_pods check_pod await_pod get_master master_pods
    healthy_masters get_stateful_set get_replicas get_pods get_info is_dataset_loaded is_pod_ready
    is_replica_stable is_loading is_syncing is_running_and_ready is_ready is_terminating
    has_disruption_target role_exists is_pod_on_latest_version has_outdated lookup insert split
    split_two trim_space has_prefix trim_suffix_cr parse_info_to_map text_lt ◌>>=◌ get_redis_client
first_round = refl

-- The replica takes over, and the master is deleted.
second_round :
    after_round old_master (on "new" outdated_pod)
    ≡ map (standing "new") (on "new" master_pod ∷ on "new" outdated_pod ∷ [])
unfolding roll_out roll_replicas update_step after_update update_replicas replace_one find_outdated
    sort_by_name insert_by_name verify_updated_replicas verify_replica has_terminating
    all_pods_healthy_and_have_role check_pods check_pod await_pod get_master master_pods
    healthy_masters get_stateful_set get_replicas get_pods get_info is_dataset_loaded is_pod_ready
    is_replica_stable is_loading is_syncing is_running_and_ready is_ready is_terminating
    has_disruption_target role_exists is_pod_on_latest_version has_outdated lookup insert split
    split_two trim_space has_prefix trim_suffix_cr parse_info_to_map text_lt ◌>>=◌ get_redis_client
    roll_master updated_master get_updated_replica repl_takeover expect_ok set_cron follow_master
    follow_one mark_master patch_if_gated
second_round = refl

both_old : count_old (map (standing "new") (old_master ∷ on "old" outdated_pod ∷ [])) ≡ 2
unfolding count_old is_pod_on_latest_version lookup
both_old = refl

roll_out-completed_example :
    let last = env_with (on "new" outdated_pod) (on "new" master_pod) in
    ((roll_out last is_ipv4 sample_df.status fresh).0 ≡ ok 0)
    × ((roll_out last is_ipv4 sample_df.status fresh).1.df ≡ completed sample_df.status sample_df)
roll_out-completed_example =
    let (master_old, replica_old) = pod_calm "old" in
    let (master_new, replica_new) = pod_calm "new" in
    roll_out-completed "new" is_ipv4 sample_df
      (round (env_with old_master (on "old" outdated_pod)) fresh
        (env_with-IsCalm old_master (on "old" outdated_pod) master_old replica_old) refl refl
        (rw first_round (Permᴰ.cons refl (Permᴰ.cons refl Permᴰ.nil)))
        (round {next = on "new" outdated_pod ∷ on "new" master_pod ∷ []}
          (env_with old_master (on "new" outdated_pod)) fresh
          (env_with-IsCalm old_master (on "new" outdated_pod) master_old replica_new) refl refl
          (rw second_round (Permᴰ.swap refl refl)) start))
      (omega (arith, both_old)) (env_with (on "new" outdated_pod) (on "new" master_pod)) fresh
      (env_with-IsCalm (on "new" outdated_pod) (on "new" master_pod) replica_new master_new) refl
