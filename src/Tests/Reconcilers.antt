-- ===== src/Tests/Reconcilers.antt =====
-- The theorems on the two controllers at concrete inputs.
use dragonfly_operator.Prelude.{All, false, ◌≡◌, ◌≢◌, ◌⊎◌, refl, [], ◌∷◌}
use dragonfly_operator.Kube.{DragonflyStatus, Pod}
use dragonfly_operator.Pods.{
  is_pod_on_latest_version, has_outdated, is_running_and_ready, is_terminating,
  has_disruption_target, is_ready, role_exists,
}
use dragonfly_operator.Effects.Calls.{patch_dragonfly_status, delete_pod, record_event, ◌>>=◌}
use dragonfly_operator.Instance.Status.{detect_rolling_update, get_master, patch_status}
use dragonfly_operator.Instance.Status.Detection.{
  rolling_status, HasRevision, detect_rolling_update_lem,
}
use dragonfly_operator.Tests.World.{
  sample_df, sample_stateful_set, sample_status, master_pod, replica_pod, sample_env, fresh,
  outdated_pod, is_ipv4,
}
use mathlib.Core.List.{Memᴰ}
use dragonfly_operator.Effects.Changes.{changes}
use dragonfly_operator.Instance.Rollout.{
  has_terminating, update_replicas, delete_outdated, detect_old_masters, verify_updated_replicas,
}
use dragonfly_operator.Instance.Rollout.Replacement.{IsNext, update_replicas-IsNext}
use dragonfly_operator.Prelude.Dict.{lookup, insert}
use dragonfly_operator.Effects.Errors.{ok}
use dragonfly_operator.Effects.Within.{Grows, Within, no_delete}
use dragonfly_operator.Instance.Queries.{is_pod_ready, is_replica_stable}
use dragonfly_operator.Instance.Rollout.Deletions.{deletes_outdated}
use dragonfly_operator.Reconcile.Lifecycle.{reconcile}
use dragonfly_operator.Reconcile.Lifecycle.Safety.{reconcile-no_delete}
use dragonfly_operator.Reconcile.Rollout.{
  roll_out, update_step, after_update, complete_rollout, roll_master,
}
use dragonfly_operator.Reconcile.Rollout.Safety.{roll_out-deletes_outdated}
use dragonfly_operator.Reconcile.Rollout.Order.{prepares, update_step-prepares}
use dragonfly_operator.Reconcile.Rollout.Completion.{IsDone, update_step-IsDone}
use dragonfly_operator.Instance.Roles.{patch_if_gated}
use dragonfly_operator.Info.{parse_info_to_map}
use dragonfly_operator.Text.{has_prefix, split, split_two, text_lt, trim_space, trim_suffix_cr}
use dragonfly_operator.Effects.Clients.{is_open}
use dragonfly_operator.Reconcile.Base.Clients.{NoneOpen}
use dragonfly_operator.Reconcile.Lifecycle.Clients.{reconcile-NoneOpen}

reconcile-no_delete_example :
    Grows no_delete [] (reconcile sample_env is_ipv4 "default" "df-0" []).1
reconcile-no_delete_example = reconcile-no_delete sample_env is_ipv4 "default" "df-0" []

roll_out-deletes_outdated_example :
    Grows (deletes_outdated "new") [] (roll_out sample_env is_ipv4 sample_status fresh).1.calls
roll_out-deletes_outdated_example =
    roll_out-deletes_outdated sample_env is_ipv4 sample_status fresh sample_stateful_set refl

update_step-prepares_example :
    Within
      (prepares "new")
      (update_step sample_env is_ipv4 sample_status "new" (replica_pod ∷ outdated_pod ∷ []))
unfolding has_outdated is_pod_on_latest_version lookup
update_step-prepares_example =
    update_step-prepares sample_env is_ipv4 "new" sample_status (replica_pod ∷ outdated_pod ∷ [])
      refl

rolled_out : (update_step sample_env is_ipv4 sample_status "new" (replica_pod ∷ []) fresh).0 ≡ ok 0
unfolding update_step lookup insert split trim_space has_prefix split_two trim_suffix_cr
    parse_info_to_map is_pod_ready is_running_and_ready is_ready is_terminating
    has_disruption_target role_exists is_pod_on_latest_version text_lt is_replica_stable
    patch_if_gated has_outdated verify_updated_replicas update_replicas after_update roll_master
    get_master detect_old_masters complete_rollout patch_status delete_outdated ◌>>=◌
rolled_out = refl

update_step-IsDone_example :
    IsDone sample_env is_ipv4 sample_status "new"
      (replica_pod ∷ [])
      (update_step sample_env is_ipv4 sample_status "new" (replica_pod ∷ []) fresh).1
update_step-IsDone_example =
    update_step-IsDone sample_env is_ipv4 sample_status "new" (replica_pod ∷ []) fresh rolled_out

reconcile-NoneOpen_example : NoneOpen (reconcile sample_env is_ipv4 "default" "df-0" []).1
unfolding is_open
reconcile-NoneOpen_example = reconcile-NoneOpen sample_env is_ipv4 "default" "df-0" [] (λ ip. refl)

master_found : (get_master sample_env fresh).0 ≡ ok master_pod
unfolding get_master ◌>>=◌ lookup is_pod_ready is_running_and_ready is_ready is_terminating
    has_disruption_target parse_info_to_map split trim_space has_prefix split_two insert
    trim_suffix_cr
master_found = refl

update_replicas-IsNext_example :
    (p : Pod) × Memᴰ p (outdated_pod ∷ replica_pod ∷ [])
    × (is_pod_on_latest_version p "new" ≡ false)
    × All (IsNext "new" p) (outdated_pod ∷ replica_pod ∷ [])
    × (changes
          (update_replicas sample_env is_ipv4 (outdated_pod ∷ replica_pod ∷ []) "new" fresh).1.calls
        ≡ delete_pod p ∷ record_event "Rollout" "Deleting replica" ∷ [])
unfolding has_terminating is_terminating has_disruption_target has_outdated is_pod_on_latest_version
    lookup changes
update_replicas-IsNext_example =
    update_replicas-IsNext sample_env is_ipv4 "new" (outdated_pod ∷ replica_pod ∷ []) master_pod
      fresh master_found refl refl

detect_rolling_update_lem_example :
    let (r, t) = detect_rolling_update sample_env fresh in
    ((sample_stateful_set.updated_replicas ≡ sample_stateful_set.replicas)
        ⊎ All (HasRevision "new") (master_pod ∷ replica_pod ∷ [])
      → (r ≡ ok sample_status) × (changes t.calls ≡ []))
    × ((pod : Pod) (status : DragonflyStatus)
        → sample_stateful_set.updated_replicas ≢ sample_stateful_set.replicas
        → Memᴰ pod (master_pod ∷ replica_pod ∷ [])
        → ¬ HasRevision "new" pod
        → r ≡ ok status
        → (status ≡ rolling_status sample_env fresh)
          × (changes t.calls
              ≡ record_event "Resources" "Performing a rollout"
                ∷ patch_dragonfly_status sample_df
                    (record sample_df { status = rolling_status sample_env fresh })
                ∷ record_event "Rollout" "Starting a rollout"
                ∷ []))
unfolding changes lookup
detect_rolling_update_lem_example =
    detect_rolling_update_lem sample_env fresh sample_stateful_set (master_pod ∷ replica_pod ∷ [])
      refl refl
