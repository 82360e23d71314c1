-- ===== src/Instance/Rollout/Deletions.antt =====
-- Which pods the methods of a rolling update delete.
use dragonfly_operator.Prelude.{
  ap, Bool, true, false, not, ◌&&◌, String, List, [], ◌∷◌, Option, none, some, ◌≡◌, refl, arith,
}
use dragonfly_operator.Kube.{Pod}
use dragonfly_operator.Pods.{is_pod_on_latest_version}
use dragonfly_operator.Effects.Calls.{Call, Env, M, delete_pod}
use dragonfly_operator.Effects.Actions.{do_delete_pod}
use dragonfly_operator.Effects.Within.{
  Within, Within-bind, Within-if, Within-weaken, Within-rewrapping, Within-pure,
  get_redis_client-Within, footprint, no_delete, PermitsChanging, PermitsAsking,
}
use dragonfly_operator.Instance.Roles.{repl_takeover}
use dragonfly_operator.Instance.Rollout.{
  check_pod, check_pods, all_pods_healthy_and_have_role, sort_by_name, has_terminating,
  find_outdated, delete_outdated_replica, replace_one, await_pod, update_replicas, promote,
  updated_master, delete_if_outdated, delete_outdated, detect_old_masters,
}
use dragonfly_operator.Instance.Footprint.{
  get_pods-Within, is_pod_ready-Within, get_master-Within, Within-or_wait,
}
use dragonfly_operator.Instance.Footprint.Changes.{
  follow_master-Within, set_cron-Within, expect_ok-Within,
}

-- Calls that delete no pod but those that are not on the revision.
abbrev pub deletes_outdated : String → Call → Bool
deletes_outdated revision (delete_pod pod) = not (is_pod_on_latest_version pod revision)
deletes_outdated revision _ = true

module _ (revision : String) where
  pub deletes_outdated-PermitsChanging : PermitsChanging (deletes_outdated revision)
  deletes_outdated-PermitsChanging call e = ground arith

  pub deletes_outdated-PermitsAsking : PermitsAsking (deletes_outdated revision)
  deletes_outdated-PermitsAsking call e = ground arith

  &&-left : (a b : Bool) → a && b ≡ true → a ≡ true
  &&-left a b e = ground arith

  module _ (env : Env) (is_ipv4 : String → Bool) where
    do_delete-Within :
        (pod : Pod)
        → is_pod_on_latest_version pod revision ≡ false
        → Within (deletes_outdated revision) (do_delete_pod env pod)
    do_delete-Within pod outdated = search (footprint, ap not outdated)

    await_pod-Within : (pod : Pod) → Within (deletes_outdated revision) (await_pod env is_ipv4 pod)
    unfolding await_pod
    await_pod-Within pod = search (footprint, deletes_outdated-PermitsAsking, is_pod_ready-Within)

    check_pod-Within :
        (pod : Pod) → Within (deletes_outdated revision) (check_pod env is_ipv4 pod revision)
    unfolding check_pod
    check_pod-Within pod = search (footprint, &&-left, await_pod-Within) depth 8

    check_pods-Within :
        (pods : List Pod)
        → Within (deletes_outdated revision) (check_pods env is_ipv4 pods revision)
    unfolding check_pods
    check_pods-Within [] = search footprint
    check_pods-Within (pod ∷ pods) = Within-or_wait (check_pod-Within pod) (check_pods-Within pods)

    pub all_pods_healthy_and_have_role-Within :
        Within (deletes_outdated revision) (all_pods_healthy_and_have_role env is_ipv4 revision)
    unfolding all_pods_healthy_and_have_role
    all_pods_healthy_and_have_role-Within =
        search (footprint, deletes_outdated-PermitsAsking, get_pods-Within, check_pods-Within)

    changing : {A : Type 0} {m : M A} → Within no_delete m → Within (deletes_outdated revision) m
    changing w = Within-weaken deletes_outdated-PermitsChanging w

    pub find_outdated_lem :
        (pods : List Pod) (pod : Pod)
        → find_outdated pods revision ≡ some pod
        → is_pod_on_latest_version pod revision ≡ false
    unfolding find_outdated
    find_outdated_lem [] pod e = cc
    find_outdated_lem (p ∷ pods) pod e = ground (arith, find_outdated_lem pods pod)

    delete_outdated_replica-Within :
        (sorted : List Pod) (found : Option Pod)
        → ((pod : Pod) → found ≡ some pod → is_pod_on_latest_version pod revision ≡ false)
        → Within (deletes_outdated revision) (delete_outdated_replica env is_ipv4 sorted found)
    delete_outdated_replica-Within sorted none h = search footprint
    delete_outdated_replica-Within sorted (some pod) h =
        search (footprint, ap not (h pod refl)) depth 7

    replace_one-Within :
        (sorted : List Pod)
        → Within (deletes_outdated revision) (replace_one env is_ipv4 sorted revision)
    unfolding replace_one
    replace_one-Within sorted =
        Within-if (has_terminating sorted) (λ _. Within-pure (5, sorted))
          (λ _.
            delete_outdated_replica-Within sorted (find_outdated sorted revision)
              (find_outdated_lem sorted))

    pub update_replicas-Within :
        (replicas : List Pod)
        → Within (deletes_outdated revision) (update_replicas env is_ipv4 replicas revision)
    unfolding update_replicas
    update_replicas-Within replicas =
        Within-bind (Within-rewrapping _ (get_master-Within deletes_outdated-PermitsAsking env))
          (λ _. replace_one-Within (sort_by_name replicas))

    repl_takeover-Within :
        (new_master old_master : Pod)
        → is_pod_on_latest_version old_master revision ≡ false
        → Within (deletes_outdated revision) (repl_takeover env is_ipv4 new_master old_master)
    unfolding repl_takeover
    repl_takeover-Within new_master old_master h =
        search
          (
            footprint,
            deletes_outdated-PermitsAsking,
            deletes_outdated-PermitsChanging,
            get_redis_client-Within,
            set_cron-Within,
            expect_ok-Within,
            ap not h,
          )
          depth 12

    promote-Within :
        (old_master : Pod) (replicas : List Pod) (found : Option Pod)
        → is_pod_on_latest_version old_master revision ≡ false
        → Within (deletes_outdated revision) (promote env is_ipv4 old_master replicas found)
    promote-Within old_master replicas none h = search footprint
    promote-Within old_master replicas (some replica) h =
        Within-bind (Within-rewrapping _ (repl_takeover-Within replica old_master h))
          (λ new_master. changing (follow_master-Within env is_ipv4 new_master replicas))

    -- With an outdated master.
    pub updated_master-Within :
        (old_master : Pod) (replicas : List Pod)
        → is_pod_on_latest_version old_master revision ≡ false
        → Within
            (deletes_outdated revision)
            (updated_master env is_ipv4 old_master replicas revision)
    unfolding updated_master
    updated_master-Within old_master [] h = search (footprint, do_delete-Within old_master h)
    updated_master-Within old_master (replica ∷ replicas) h =
        promote-Within old_master (replica ∷ replicas) _ h

    delete_if_outdated-Within :
        (pod : Pod)
        → Within (deletes_outdated revision) (delete_if_outdated env is_ipv4 pod revision)
    unfolding delete_if_outdated
    delete_if_outdated-Within pod = search footprint

    delete_outdated-Within :
        (pods : List Pod)
        → Within (deletes_outdated revision) (delete_outdated env is_ipv4 pods revision)
    unfolding delete_outdated
    delete_outdated-Within [] = search footprint
    delete_outdated-Within (pod ∷ pods) =
        Within-bind (delete_if_outdated-Within pod) (λ _. delete_outdated-Within pods)

    pub detect_old_masters-Within :
        Within (deletes_outdated revision) (detect_old_masters env is_ipv4 revision)
    unfolding detect_old_masters
    detect_old_masters-Within = search (footprint, delete_outdated-Within)
