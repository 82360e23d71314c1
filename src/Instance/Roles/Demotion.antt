-- ===== src/Instance/Roles/Demotion.antt =====
-- What `replicaOf` does, call by call.
use dragonfly_operator.Prelude.{
  ◌≡◌, refl, ◌∙◌, sym, ap, String, Bool, true, false, not, Option, none, some, [], ◌∷◌, ◌++◌, ◌<>◌,
  arith, if◌then◌else◌,
}
use dragonfly_operator.Text.{contains}
use dragonfly_operator.Kube.{Pod, dragonfly_admin_port}
use dragonfly_operator.Effects.Errors.{Result, ok, err}
use dragonfly_operator.Effects.Calls.{
  Env, History, Instance, M, ◌>>=◌, ◌>>◌, pure, wrapping, flattening, patch_pod, slave_of,
  info as ask_info,
}
use dragonfly_operator.Effects.Actions.{get_redis_client, do_slave_of, do_patch_pod}
use dragonfly_operator.Effects.Changes.{changes, connected}
use dragonfly_operator.Effects.Scripts.{Script, made, all_accepted, is_ok, is_err}
use dragonfly_operator.Effects.Outcome.{bind_run}
use dragonfly_operator.Instance.Queries.{has_master_role}
use dragonfly_operator.Instance.Roles.{
  sanitize_ip, mark_replica, master_only_cron, disconnect_clients, disconnect_old_master,
  replica_of, set_cron, expect_ok,
}
use dragonfly_operator.Instance.Roles.Disconnect.{kills_listed, disconnect_clients_lem}
use dragonfly_operator.Instance.Roles.Promotion.{with_cron, cron_script}

-- The pod says that it is a master.
abbrev pub is_master_reply : Result String → Bool
is_master_reply (err e) = false
is_master_reply (ok info) = contains info "role:master"

-- The kills, where the pod was a master.
abbrev pub kills_if : Bool → String → Result String → History
kills_if was_master c listed = if was_master then kills_listed c listed else []

-- The schedule that clears the snapshots of a replica.
abbrev pub cleared : Option String → Option String
cleared none = none
cleared (some cron) = some ""

module _ (env : Env) (is_ipv4 : String → Bool) where
  disconnect_old_master_lem :
      (c : String) (was_master : Bool) (patched : Pod) (s : Instance)
      → changes (disconnect_old_master env is_ipv4 c was_master patched s).1.calls
        ≡ kills_if was_master c (env.client_list s.calls c) ++ changes s.calls
  unfolding disconnect_old_master pure
  disconnect_old_master_lem c false patched s = refl
  disconnect_old_master_lem c true patched s =
      let (never_fails, killed, spared) = disconnect_clients_lem env is_ipv4 c s in
      rw (bind_run (disconnect_clients env is_ipv4 c) (λ _. pure patched) s tt never_fails) killed

  -- `replicaOf` up to its last step.
  relabel : Pod → String → M (String × Bool × Pod)
  unfolding get_redis_client has_master_role set_cron expect_ok mark_replica sanitize_ip
  relabel pod ip = do
    c ← get_redis_client pod.pod_ip
    was_master ←
        wrapping "failed to determine the current role of the instance" (has_master_role env c)
    let master_ip = sanitize_ip ip
    set_cron env is_ipv4 c ("failed to clear snapshot_cron on replica " <> pod.name) (λ _. "")
    resp ←
        flattening "error running SLAVE OF command: "
          (do_slave_of env c master_ip dragonfly_admin_port)
    expect_ok env is_ipv4 "response of `SLAVE OF` on replica is not OK: " resp
    patched ←
        wrapping "could not update replica metadata"
          (do_patch_pod env pod (mark_replica (is_ipv4 master_ip) pod master_ip))
    pure (c, was_master, patched)

  abbrev last_step : String × Bool × Pod → M Pod
  last_step (c, was_master, patched) = disconnect_old_master env is_ipv4 c was_master patched

  replica_of-relabel :
      (pod : Pod) (ip : String) (s : Instance)
      → replica_of env is_ipv4 pod ip s ≡ (relabel pod ip >>= last_step) s
  unfolding replica_of relabel ◌>>=◌
  replica_of-relabel pod ip s = ground arith

  -- It never fails.
  disconnect_old_master_ok :
      (c : String) (was_master : Bool) (patched : Pod) (s : Instance)
      → is_err (disconnect_old_master env is_ipv4 c was_master patched s).0 ≡ false
  unfolding disconnect_old_master pure
  disconnect_old_master_ok c false patched s = refl
  disconnect_old_master_ok c true patched s =
      let (never_fails, killed, spared) = disconnect_clients_lem env is_ipv4 c s in
      rw (bind_run (disconnect_clients env is_ipv4 c) (λ _. pure patched) s tt never_fails) refl

  module _ (pod : Pod) (ip : String) (s : Instance) where
    -- The answer to the question after the role.
    abbrev pub role_reply : Result String
    role_reply = env.info (connected pod.pod_ip s) pod.pod_ip "replication"

    -- What the pod said of its role before.
    abbrev pub said_master : Bool
    said_master = is_master_reply role_reply

    -- The history when the pod is asked to replicate.
    abbrev pub cleared_history : History
    cleared_history =
        with_cron pod.pod_ip (cleared (master_only_cron s.df.spec.snapshot))
          (ask_info pod.pod_ip "replication" ∷ connected pod.pod_ip s)

    -- The history when the pod is patched.
    abbrev pub following_history : History
    following_history = slave_of pod.pod_ip (sanitize_ip ip) dragonfly_admin_port ∷ cleared_history

    abbrev pub relabelled : Pod
    relabelled = mark_replica (is_ipv4 (sanitize_ip ip)) pod (sanitize_ip ip)

    -- The calls of a demotion: the schedule, `SLAVEOF` with the address of the master, less the
    -- brackets, and the patch of the labels and annotations.
    abbrev pub demotion : Script
    demotion =
        let c = pod.pod_ip in
        let master_ip = sanitize_ip ip in
        cron_script env c (cleared (master_only_cron s.df.spec.snapshot))
          (ask_info c "replication" ∷ connected c s)
        ++ ((
          slave_of c master_ip dragonfly_admin_port,
          is_ok (env.slave_of cleared_history c master_ip dragonfly_admin_port),
        )
            ∷ (
              patch_pod pod relabelled,
              not (is_err (env.patch_pod following_history pod relabelled)),
            )
            ∷ [])

    -- The kills after a demotion that succeeds.
    abbrev pub demotion_kills : History
    demotion_kills =
        if all_accepted demotion
        then kills_if said_master pod.pod_ip
            (env.client_list (patch_pod pod relabelled ∷ following_history) pod.pod_ip)
        else []

    relabel_refused :
        is_err role_reply ≡ true
        → (is_err (relabel pod ip s).0 ≡ true)
          × (changes (relabel pod ip s).1.calls ≡ changes s.calls)
    unfolding relabel ◌>>=◌ changes
    relabel_refused h = (ground arith, ground arith)

    relabel-made :
        is_err role_reply ≡ false
        → (changes (relabel pod ip s).1.calls ≡ made demotion (changes s.calls))
          × (is_err (relabel pod ip s).0 ≡ not (all_accepted demotion))
    unfolding relabel ◌>>=◌ changes
    relabel-made h = (ground arith, ground arith)

    relabel_ok :
        (c : String) (was_master : Bool) (patched : Pod)
        → (relabel pod ip s).0 ≡ ok (c, was_master, patched)
        → (c ≡ pod.pod_ip)
          × (was_master ≡ said_master)
          × ((relabel pod ip s).1.calls ≡ patch_pod pod relabelled ∷ following_history)
          × (is_err role_reply ≡ false)
          × (all_accepted demotion ≡ true)
    unfolding relabel ◌>>=◌
    relabel_ok c was_master patched e =
        (ground arith, ground arith, ground arith, ground arith, ground arith)

    -- The steps up to the patch, by how they end.
    ends_by :
        (found : Result (String × Bool × Pod)) (t : Instance)
        → relabel pod ip s ≡ (found, t)
        → is_err role_reply ≡ false
        → let (r, u) = (relabel pod ip >>= last_step) s in
          (changes u.calls ≡ demotion_kills ++ made demotion (changes s.calls))
          × (is_err r ≡ not (all_accepted demotion))
    unfolding ◌>>=◌
    ends_by (err e) t run h =
        let (changed, failed) = relabel-made h in
        let refused : all_accepted demotion ≡ false =
          ground (arith, failed, ap (λ x. is_err x.0) run) in
        rw run (rw refused (sym (ap (λ x. changes x.1.calls) run) ∙ changed, refl))
    ends_by (ok (c, was_master, patched)) t run h =
        let (same_pod, same_role, calls, answered, accepted) =
          relabel_ok c was_master patched (ap (λ x. x.0) run) in
        let (changed, failed) = relabel-made h in
        let all = made demotion (changes s.calls) in
        let at_patch : t.calls ≡ patch_pod pod relabelled ∷ following_history =
          sym (ap (λ x. x.1.calls) run) ∙ calls in
        let changes_before : changes t.calls ≡ all =
          sym (ap (λ x. changes x.1.calls) run) ∙ changed in
        let killed =
          disconnect_old_master_lem c was_master patched t
          ∙ ap (λ before. kills_if was_master c (env.client_list t.calls c) ++ before)
              changes_before
          ∙ ap (λ h. kills_if was_master c (env.client_list h c) ++ all) at_patch
          ∙ ap
              (λ w.
                kills_if w c (env.client_list (patch_pod pod relabelled ∷ following_history) c)
                ++ all)
              same_role
          ∙ ap
              (λ d.
                kills_if said_master d
                  (env.client_list (patch_pod pod relabelled ∷ following_history) d)
                ++ all)
              same_pod
          ∙ ap
              (λ b.
                (if b
                  then kills_if said_master pod.pod_ip
                      (env.client_list (patch_pod pod relabelled ∷ following_history) pod.pod_ip)
                  else [])
                ++ all)
              (sym accepted) in
        rw run (killed, disconnect_old_master_ok c was_master patched t ∙ ap not (sym accepted))

    fails_by :
        (found : Result (String × Bool × Pod)) (t : Instance)
        → relabel pod ip s ≡ (found, t)
        → is_err role_reply ≡ true
        → let (r, u) = (relabel pod ip >>= last_step) s in
          (is_err r ≡ true) × (changes u.calls ≡ changes s.calls)
    unfolding ◌>>=◌
    fails_by (err e) t run h =
        let (failed, unchanged) = relabel_refused h in
        rw run (refl, sym (ap (λ x. changes x.1.calls) run) ∙ unchanged)
    fails_by (ok found) t run h =
        let (failed, unchanged) = relabel_refused h in
        let absurd : false ≡ true = sym (ap (λ x. is_err x.0) run) ∙ failed in cc

    -- A demotion whose question after the role is not answered fails and changes nothing. Otherwise it
    -- makes the changes of `demotion`, in this order, up to and including the first one that is refused,
    -- and it fails exactly if one is; so a pod gets the label of a replica only after it has answered
    -- `OK` to `SLAVEOF` with the address of the master. If none is refused, and the pod said before that
    -- it was a master, it then kills the clients that the reply to `CLIENT LIST` names.
    pub replica_of-changes :
        let (r, t) = replica_of env is_ipv4 pod ip s in
        (is_err role_reply ≡ true → (is_err r ≡ true) × (changes t.calls ≡ changes s.calls))
        × (is_err role_reply ≡ false
            → (changes t.calls ≡ demotion_kills ++ made demotion (changes s.calls))
              × (is_err r ≡ not (all_accepted demotion)))
    replica_of-changes = rw (replica_of-relabel pod ip s) (
      fails_by (relabel pod ip s).0 (relabel pod ip s).1 refl,
      ends_by (relabel pod ip s).0 (relabel pod ip s).1 refl,
    )
