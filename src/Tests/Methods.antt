-- ===== src/Tests/Methods.antt =====
-- The theorems on the methods of `DragonflyInstance` at concrete inputs.
use dragonfly_operator.Prelude.{
  ◌≡◌, ◌≢◌, refl, String, true, false, List, [], ◌∷◌, ◌&&◌, not, some, All, ◌==◌, ◌++◌,
}
use dragonfly_operator.Prelude.Dict.{lookup, insert}
use dragonfly_operator.Pods.{
  is_healthy, is_pod_on_latest_version, is_running_and_ready, is_terminating, has_disruption_target,
  is_ready, role_exists,
}
use dragonfly_operator.Effects.Errors.{ok, err, answered}
use dragonfly_operator.Effects.Calls.{
  ◌>>=◌, slave_of, config_set, patch_pod, repl_takeover as takeover, client_kill,
}
use dragonfly_operator.Effects.Changes.{changes, connected}
use dragonfly_operator.Effects.Scripts.{is_err, made, all_accepted}
use dragonfly_operator.Instance.Queries.{is_pod_ready, get_pods}
use dragonfly_operator.Instance.Queries.Health.{answers_true, is_loaded_reply, is_pod_ready_lem}
use dragonfly_operator.Instance.Status.{get_master}
use dragonfly_operator.Instance.Status.Master.{get_master_healthy}
use dragonfly_operator.Instance.Rollout.{all_pods_healthy_and_have_role}
use dragonfly_operator.Instance.Rollout.Gate.{is_settled, all_pods_healthy_and_have_role_lem}
use dragonfly_operator.Instance.Roles.{
  mark_master, set_condition, has_condition, replica_of_no_one, repl_takeover, disconnect_clients,
  is_spared, victim, replica_of,
}
use dragonfly_operator.Instance.Roles.Labels.{set_condition_lem, status_of}
use dragonfly_operator.Instance.Roles.Promotion.{replica_of_no_one-changes, repl_takeover-changes}
use dragonfly_operator.Info.{parse_info_to_map}
use dragonfly_operator.Text.{
  has_prefix, split, split_two, text_lt, trim_space, trim_suffix_cr, digits, trim_prefix,
}
use dragonfly_operator.Instance.Roles.Disconnect.{kills, disconnect_clients_lem}
use dragonfly_operator.Instance.Roles.Demotion.{
  role_reply, demotion, demotion_kills, replica_of-changes,
}
use dragonfly_operator.Tests.World.{
  sample_env, fresh, master_pod, replica_pod, outdated_pod, is_ipv4,
}

get_master_healthy_example : is_healthy master_pod ≡ true
unfolding get_master is_pod_ready is_healthy ◌>>=◌ lookup is_running_and_ready is_ready
    is_terminating has_disruption_target parse_info_to_map split trim_space has_prefix split_two
    insert trim_suffix_cr
get_master_healthy_example = get_master_healthy sample_env master_pod fresh refl

is_pod_ready_lem_example :
    (answers_true (is_pod_ready sample_env replica_pod fresh).0 ≡ (
      is_healthy replica_pod
      && not (replica_pod.pod_ip == "")
      && is_loaded_reply
          (sample_env.info (connected replica_pod.pod_ip fresh) replica_pod.pod_ip "persistence")))
    × (is_healthy replica_pod ≡ false
        → is_pod_ready sample_env replica_pod fresh ≡ (ok false, fresh))
is_pod_ready_lem_example = is_pod_ready_lem sample_env replica_pod fresh

all_settled : (all_pods_healthy_and_have_role sample_env is_ipv4 "new" fresh).0 ≡ ok 0
unfolding all_pods_healthy_and_have_role lookup insert split trim_space has_prefix split_two
    trim_suffix_cr parse_info_to_map is_pod_ready is_running_and_ready is_ready is_terminating
    has_disruption_target role_exists is_pod_on_latest_version text_lt ◌>>=◌ get_pods
all_settled = refl

all_pods_healthy_and_have_role_lem_example :
    All (λ pod. is_settled pod ≡ true) (master_pod ∷ replica_pod ∷ [])
unfolding lookup
all_pods_healthy_and_have_role_lem_example =
    all_pods_healthy_and_have_role_lem sample_env is_ipv4 "new" (master_pod ∷ replica_pod ∷ [])
      fresh refl all_settled

replica_of_no_one-changes_example :
    let (r, t) = replica_of_no_one sample_env is_ipv4 replica_pod fresh in
    (changes t.calls
      ≡ patch_pod replica_pod (mark_master replica_pod "10.0.0.2")
        ∷ config_set "10.0.0.2" "snapshot_cron" "*/5 * * * *"
        ∷ slave_of "10.0.0.2" "NO" "ONE"
        ∷ [])
    × (is_err r ≡ false)
unfolding changes
replica_of_no_one-changes_example = replica_of_no_one-changes sample_env is_ipv4 replica_pod fresh

-- The label of the new master is refused, and the old one stays.
repl_takeover-changes_example :
    let env = record sample_env { patch_pod = λ h before after. err (answered false "conflict") } in
    let (r, t) = repl_takeover env is_ipv4 replica_pod outdated_pod fresh in
    (changes t.calls
      ≡ patch_pod replica_pod (mark_master replica_pod "10.0.0.2")
        ∷ config_set "10.0.0.2" "snapshot_cron" "*/5 * * * *"
        ∷ takeover "10.0.0.2" "5"
        ∷ [])
    × (is_err r ≡ true)
unfolding changes
repl_takeover-changes_example =
    repl_takeover-changes
      (record sample_env { patch_pod = λ h before after. err (answered false "conflict") }) is_ipv4
      replica_pod outdated_pod fresh

set_condition_lem_example :
    let changed = set_condition "ready" "True" 5 master_pod.conditions in
    (status_of "ready" changed ≡ some "True")
    × ((other : String)
        → other ≢ "ready"
        → status_of other changed ≡ status_of other master_pod.conditions)
    × (has_condition "ready" "True" changed ≡ true)
set_condition_lem_example = set_condition_lem "ready" "True" 5 master_pod.conditions

disconnect_clients_lem_example :
    ((disconnect_clients sample_env is_ipv4 "10.0.0.1" fresh).0 ≡ ok tt)
    × (changes (disconnect_clients sample_env is_ipv4 "10.0.0.1" fresh).1.calls
        ≡ client_kill "10.0.0.1" "10.9.9.9:4000" ∷ [])
    × ((line : String) (lines : List String)
        → is_spared line ≡ true
        → kills "10.0.0.1" (line ∷ lines) ≡ kills "10.0.0.1" lines)
unfolding changes kills victim split trim_prefix dragonfly_operator.Text.contains
disconnect_clients_lem_example = disconnect_clients_lem sample_env is_ipv4 "10.0.0.1" fresh

replica_of-changes_example :
    let (r, t) = replica_of sample_env is_ipv4 master_pod "10.0.0.2" fresh in
    let asked = role_reply sample_env is_ipv4 master_pod "10.0.0.2" fresh in
    (is_err asked ≡ true → (is_err r ≡ true) × (changes t.calls ≡ []))
    × (is_err asked ≡ false
        → (changes t.calls
            ≡ demotion_kills sample_env is_ipv4 master_pod "10.0.0.2" fresh
              ++ made (demotion sample_env is_ipv4 master_pod "10.0.0.2" fresh) [])
          × (is_err r
              ≡ not (all_accepted (demotion sample_env is_ipv4 master_pod "10.0.0.2" fresh))))
unfolding changes
replica_of-changes_example = replica_of-changes sample_env is_ipv4 master_pod "10.0.0.2" fresh
