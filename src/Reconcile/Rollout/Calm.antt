-- ===== src/Reconcile/Rollout/Calm.antt =====
-- A rolling update where nothing goes wrong: the API server refuses nothing, and the pods are healthy and
-- answer (`DragonflyReconciler.Reconcile` and the methods that it calls).
pub mod Checks
use dragonfly_operator.Prelude.{
  ◌≡◌, refl, ap, ◌∙◌, String, Bool, true, false, not, ◌&&◌, ◌||◌, List, [], ◌∷◌, ◌==◌, All, arith,
  if◌then◌else◌, Bool-cases, inl, inr,
}
use dragonfly_operator.Kube.{
  Pod, Dragonfly, StatefulSet, master as master_role, replica as replica_role,
  stateful_set_revision_label,
}
use dragonfly_operator.Pods.{
  is_running_and_ready, is_terminating, role_exists, is_pod_on_latest_version,
}
use dragonfly_operator.Info.{parse_info_to_map}
use dragonfly_operator.Effects.Errors.{ok, errorf}
use dragonfly_operator.Effects.Calls.{
  Env, History, Instance, M, fail, pure, wrapping, ◌>>=◌, info, ping, list_pods,
}
use dragonfly_operator.Effects.Actions.{do_info, get_redis_client}
use dragonfly_operator.Effects.Within.{no_delete, no_delete-PermitsAsking}
use dragonfly_operator.Effects.Returns.{
  Returns, Returns-next, Returns-pure, Returns-gets, Returns-perform, Returns-rewrapping,
  Returns-bind, Returns-get_redis_client,
}
use dragonfly_operator.Instance.Queries.{
  instance_labels, with_role, is_loading, is_syncing, get_info, is_dataset_loaded, is_pod_ready,
  is_replica_stable,
}
use dragonfly_operator.Reconcile.Rollout.{is_complete}

-- The reply says that the dataset is loaded, and the replication stable.
pub record IsLoaded (reply : String) : Type 0 where
  pub loaded : is_loading (parse_info_to_map reply) ≡ false
  pub stable : is_syncing (parse_info_to_map reply) ≡ false
  pub given : (reply == "") ≡ false

pub record IsCalmPod (pod : Pod) : Type 0 where
  pub ready : is_running_and_ready pod ≡ true
  pub stays : is_terminating pod ≡ false
  pub has_role : role_exists pod ≡ true
  pub has_ip : (pod.pod_ip == "") ≡ false

-- The answers during one reconciliation, at which the instance has one master and these replicas.
pub record IsCalm (env : Env) (df : Dragonfly) (revision : String) (master : Pod)
    (replicas : List Pod) : Type 0 where
  pub get_stateful_set :
      (h : History)
      → (stateful_set : StatefulSet) × (env.get_stateful_set h df.namespace df.name
          ≡ ok stateful_set)
        × (stateful_set.update_revision ≡ revision)
  pub list_all :
      (h : History) → env.list_pods h df.namespace (instance_labels df) ≡ ok (master ∷ replicas)
  pub list_masters :
      (h : History)
      → env.list_pods h df.namespace (with_role (instance_labels df) master_role) ≡ ok (master ∷ [])
  pub list_updated_masters :
      (h : History)
      → env.list_pods h df.namespace
          ((stateful_set_revision_label, revision) ∷ with_role (instance_labels df) master_role)
        ≡ ok (if is_pod_on_latest_version master revision then master ∷ [] else [])
  pub list_replicas :
      (h : History)
      → env.list_pods h df.namespace (with_role (instance_labels df) replica_role) ≡ ok replicas
  pub replies :
      (h : History) (ip section : String)
      → (reply : String) × (env.info h ip section ≡ ok reply) × IsLoaded reply
  pub ping : (h : History) (ip : String) → env.ping h ip ≡ ok tt
  pub delete_pod : (h : History) (pod : Pod) → env.delete_pod h pod ≡ ok tt
  pub patch_pod_status :
      (h : History) (before after : Pod) → env.patch_pod_status h before after ≡ ok after
  pub patch_pod : (h : History) (before after : Pod) → env.patch_pod h before after ≡ ok after
  pub takeover : (h : History) (ip timeout : String) → env.repl_takeover h ip timeout ≡ ok "OK"
  pub config_set : (h : History) (ip key value : String) → env.config_set h ip key value ≡ ok tt
  pub patch_status :
      (h : History) (before after : Dragonfly)
      → env.patch_dragonfly_status h before after ≡ ok after
  pub master_calm : IsCalmPod master
  pub replicas_calm : All IsCalmPod replicas
  pub complete : is_complete replicas df.spec.replicas ≡ true

module _ {env : Env} {df : Dragonfly} {revision : String} {master : Pod} {replicas : List Pod}
    (calm : IsCalm env df revision master replicas) where
  do_info-Returns :
      (ip section : String) (s : Instance)
      → (reply : String) × Returns no_delete (do_info env ip section) s reply × IsLoaded reply
  do_info-Returns ip section s =
      let (reply, answered, loaded) = calm.replies s.calls ip section in
      (reply, Returns-perform (info ip section) _ s refl answered, loaded)

  get_info-Returns :
      (ip section : String) (s : Instance)
      → (reply : String) × Returns no_delete (get_info env ip section) s reply × IsLoaded reply
  unfolding get_info
  get_info-Returns ip section s =
      let client = Returns-get_redis_client no_delete-PermitsAsking ip s in
      let (reply, answered, loaded) = do_info-Returns ip section (get_redis_client ip s).1 in
      (reply, Returns-next (get_redis_client ip) _ client answered, loaded)

  is_dataset_loaded-Returns :
      (pod : Pod) (s : Instance)
      → IsCalmPod pod
      → Returns no_delete (is_dataset_loaded env pod) s true
  unfolding is_dataset_loaded
  is_dataset_loaded-Returns pod s p =
      let (reply, answered, loaded) = get_info-Returns pod.pod_ip "persistence" s in
      rw (p.has_ip) (
        Returns-next (get_info env pod.pod_ip "persistence") _ answered
          (rw (loaded.loaded) (Returns-pure true _)))

  is_pod_ready-Returns :
      (pod : Pod) (s : Instance) → IsCalmPod pod → Returns no_delete (is_pod_ready env pod) s true
  unfolding is_pod_ready
  is_pod_ready-Returns pod s p =
      rw (p.ready, p.stays) (Returns-rewrapping _ (is_dataset_loaded-Returns pod s p))

  -- The reply of a replica that is asked whether it is stable.
  stable_by-Returns :
      (reply ip : String) (s : Instance)
      → IsLoaded reply
      → Returns no_delete
          (if reply == ""
            then fail (errorf "empty info")
            else if is_syncing (parse_info_to_map reply)
            then pure false
            else do
              persistence_info ← do_info env ip "persistence"
              pure (not (is_loading (parse_info_to_map persistence_info))))
          s
          true
  stable_by-Returns reply ip s l =
      let (persistence, answered, loaded) = do_info-Returns ip "persistence" s in
      rw (l.given, l.stable)
        (Returns-next (do_info env ip "persistence") _ answered
          (rw (loaded.loaded) (Returns-pure true _)))

  is_replica_stable-Returns :
      (pod : Pod) (s : Instance) → Returns no_delete (is_replica_stable env pod) s true
  unfolding is_replica_stable
  is_replica_stable-Returns pod s =
      Returns-bind (get_redis_client pod.pod_ip) _
        (Returns-get_redis_client no_delete-PermitsAsking pod.pod_ip s)
        (λ t d.
          Returns-bind _ _
            (Returns-perform (ping pod.pod_ip) _ t refl (calm.ping t.calls pod.pod_ip))
            (λ u e.
              let (reply, answered, loaded) = do_info-Returns pod.pod_ip "replication" u in
              Returns-next (do_info env pod.pod_ip "replication") _ answered
                (stable_by-Returns reply pod.pod_ip _ loaded)))
