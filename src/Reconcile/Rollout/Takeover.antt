-- ===== src/Reconcile/Rollout/Takeover.antt =====
-- The last pod of a rolling update, the master, where nothing goes wrong (`replTakeover` and
-- `updatedMaster` in internal/controller/dragonfly_instance.go).
use dragonfly_operator.Prelude.{
  ◌≡◌, refl, ◌∙◌, String, Bool, false, Option, none, some, List, [], ◌∷◌, arith,
}
use dragonfly_operator.Kube.{Pod, Dragonfly, DragonflyStatus}
use dragonfly_operator.Pods.{is_pod_on_latest_version, has_outdated, get_updated_replica}
use dragonfly_operator.Effects.Errors.{ok}
use dragonfly_operator.Effects.Calls.{
  Env, Instance, wrapping, attempt, ◌>>=◌, patch_pod, config_set, repl_takeover as takeover,
}
use dragonfly_operator.Effects.Actions.{
  get_redis_client, do_repl_takeover, do_delete_pod, do_patch_pod,
}
use dragonfly_operator.Effects.Within.{Grows-trans, Within-pure, no_delete, no_delete-PermitsAsking}
use dragonfly_operator.Effects.Returns.{
  Returns, Returns-pure, Returns-perform, Returns-get_df, Returns-attempt, Returns-rewrapping,
  Returns-get_redis_client,
}
use dragonfly_operator.Instance.Status.{get_master}
use dragonfly_operator.Instance.Roles.{
  mark_master, master_only_cron, config_cron, set_cron, expect_ok, repl_takeover,
}
use dragonfly_operator.Instance.Footprint.Changes.{follow_master-Within}
use dragonfly_operator.Instance.Rollout.{find_outdated, sort_by_name, updated_master}
use dragonfly_operator.Reconcile.Rollout.{roll_found, roll_master, after_update, roll_out}
use dragonfly_operator.Reconcile.Rollout.Calm.{IsCalm}
use dragonfly_operator.Reconcile.Rollout.Calm.Checks.{get_master-Returns}
use dragonfly_operator.Reconcile.Rollout.Path.{next_step, roll_out-Reaches}
use dragonfly_operator.Reconcile.Rollout.Steps.{replace_one-none, update_replicas-run, sorted_calm}
use dragonfly_operator.Reconcile.Rollout.Deleting.{
  Deletes, Deletes-perform, Deletes-rewrapping, Deletes-next, Deletes-then, Deletes-Leads,
}

module _ {env : Env} {df : Dragonfly} {revision : String} {master : Pod} {replicas : List Pod}
    (is_ipv4 : String → Bool) (calm : IsCalm env df revision master replicas) where
  config_cron-Returns :
      (c failure : String) (schedule : String → String) (cron : Option String) (s : Instance)
      → Returns no_delete (config_cron env is_ipv4 c failure schedule cron) s tt
  config_cron-Returns c failure schedule none s = Returns-pure tt s
  config_cron-Returns c failure schedule (some cron) s = Returns-rewrapping _ (
      Returns-perform (config_set c "snapshot_cron" (schedule cron)) _ s refl
        (calm.config_set s.calls c "snapshot_cron" (schedule cron)))

  set_cron-Returns :
      (c failure : String) (schedule : String → String) (s : Instance)
      → Returns no_delete (set_cron env is_ipv4 c failure schedule) s tt
  unfolding set_cron
  set_cron-Returns c failure schedule s =
      Returns-get_df _
        (config_cron-Returns c failure schedule (master_only_cron s.df.spec.snapshot) s)

  expect_ok-Returns :
      (failure : String) (s : Instance)
      → Returns no_delete (expect_ok env is_ipv4 failure "OK") s tt
  unfolding expect_ok
  expect_ok-Returns failure s = Returns-pure tt s

  repl_takeover-Deletes :
      (new_master old_master : Pod) (s : Instance)
      → Deletes (repl_takeover env is_ipv4 new_master old_master) s old_master
  unfolding repl_takeover
  repl_takeover-Deletes new_master old_master s =
      let ip = new_master.pod_ip in
      let after = mark_master new_master ip in
      Deletes-next (get_redis_client ip) _ (Returns-get_redis_client no_delete-PermitsAsking ip s) (
        Deletes-next (wrapping "error running REPLTAKEOVER command" (do_repl_takeover env ip "5")) _
          (Returns-rewrapping _
            (Returns-perform (takeover ip "5") _ _ refl (calm.takeover _ ip "5")))
          (Deletes-next _ _
            (expect_ok-Returns "response of `REPLTAKEOVER` on replica is not OK: " _)
            (Deletes-next _ _ (set_cron-Returns ip _ (λ cron. cron) _) (
              Deletes-next
                (wrapping "failed to update the role label on the pod"
                  (do_patch_pod env new_master after))
                _
                (Returns-rewrapping _ (
                  Returns-perform (patch_pod new_master after) _ _ refl
                    (calm.patch_pod _ new_master after)))
                (Deletes-then (wrapping "failed to delete pod" (do_delete_pod env old_master)) _
                  (Deletes-rewrapping _ (Deletes-perform env old_master _))
                  (λ _. Within-pure after))))))

  -- The replicas are on the revision, so one of them takes over.
  get_updated_replica_first :
      (replica : Pod) (others : List Pod)
      → has_outdated (replica ∷ others) revision ≡ false
      → get_updated_replica (replica ∷ others) revision ≡ some replica
  unfolding has_outdated get_updated_replica
  get_updated_replica_first replica others h = ground arith

  updated_master-Deletes :
      (old_master : Pod) (pods : List Pod) (s : Instance)
      → has_outdated pods revision ≡ false
      → Deletes (updated_master env is_ipv4 old_master pods revision) s old_master
  unfolding updated_master
  updated_master-Deletes old_master [] s h = Deletes-rewrapping _ (Deletes-perform env old_master s)
  updated_master-Deletes old_master (replica ∷ others) s h =
      rw (get_updated_replica_first replica others h) (
        Deletes-then
          (wrapping "failed to update master" (repl_takeover env is_ipv4 replica old_master)) _
          (Deletes-rewrapping _ (repl_takeover-Deletes replica old_master s))
          (λ new_master. follow_master-Within env is_ipv4 new_master (replica ∷ others)))

  module _ (status : DragonflyStatus) (old : is_pod_on_latest_version master revision ≡ false) where
    roll_found-Deletes :
        (sorted : List Pod) (s : Instance)
        → has_outdated sorted revision ≡ false
        → Deletes (roll_found env is_ipv4 status sorted revision (ok master)) s master
    roll_found-Deletes sorted s h = rw old (
        Deletes-then
          (wrapping "failed to update master" (updated_master env is_ipv4 master sorted revision)) _
          (Deletes-rewrapping _ (updated_master-Deletes master sorted s h)) (λ _. Within-pure 5))

    roll_master-Deletes :
        (sorted : List Pod) (s : Instance)
        → s.df ≡ df
        → has_outdated sorted revision ≡ false
        → Deletes (roll_master env is_ipv4 status sorted revision) s master
    unfolding roll_master
    roll_master-Deletes sorted s e h =
        Deletes-next (attempt (get_master env)) _
          (Returns-attempt (get_master-Returns is_ipv4 calm s e)) (roll_found-Deletes sorted _ h)

    next_step-Deletes :
        (s : Instance)
        → s.df ≡ df
        → find_outdated (sort_by_name replicas) revision ≡ none
        → has_outdated (sort_by_name replicas) revision ≡ false
        → Deletes (next_step is_ipv4 calm status) s master
    unfolding ◌>>=◌ after_update
    next_step-Deletes s e h settled =
        let asked = wrapping "failed to get master before deleting replica" (get_master env) in
        let found : Returns no_delete asked s master =
          Returns-rewrapping _ (get_master-Returns is_ipv4 calm s e) in
        let run =
          update_replicas-run is_ipv4 calm status s e
          ∙ replace_one-none is_ipv4 calm status (sort_by_name replicas) (asked s).1
              (sorted_calm is_ipv4 calm status) h in
        let taken =
          roll_master-Deletes (sort_by_name replicas) (asked s).1 (found.df ∙ e) settled in
        record {
          earlier = taken.earlier;
          before = Grows-trans found.grows taken.before;
          after = rw run taken.after;
        }

    -- With all replicas updated, the reconciliation has one of them take over, and deletes the master.
    pub roll_out-Deletes :
        (s : Instance)
        → s.df ≡ df
        → find_outdated (sort_by_name replicas) revision ≡ none
        → has_outdated (sort_by_name replicas) revision ≡ false
        → Deletes (roll_out env is_ipv4 status) s master
    roll_out-Deletes s e h settled =
        let (t, way) = roll_out-Reaches is_ipv4 calm status s e in
        Deletes-Leads way (next_step-Deletes t (way.df ∙ e) h settled)
