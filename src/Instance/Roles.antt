-- ===== src/Instance/Roles.antt =====
-- The methods of `DragonflyInstance` that change one pod: its role in Dragonfly, the labels and
-- annotations that say so, and its readiness condition.
pub mod Labels
pub mod Promotion
pub mod Disconnect
pub mod Demotion
pub mod Address
use dragonfly_operator.Prelude.{
  ℕ, String, Bool, true, false, not, ◌&&◌, ◌||◌, Option, none, some, List, [], ◌∷◌, ◌<>◌, ◌==◌,
  if◌then◌else◌, nat_eq,
}
use dragonfly_operator.Prelude.Dict.{insert, erase}
use dragonfly_operator.Text.{split, contains, has_prefix, trim_prefix, trim}
use dragonfly_operator.Kube.{
  Pod, PodCondition, Snapshot, master, replica, role_label_key, master_ip_label_key,
  master_ip_annotation_key, dragonfly_admin_port, replication_ready_condition_type,
}
use dragonfly_operator.Effects.Errors.{errorf, Result, ok, err}
use dragonfly_operator.Effects.Calls.{
  Env, M, ◌>>=◌, ◌>>◌, pure, fail, attempt, wrapping, flattening,
}
use dragonfly_operator.Effects.Actions.{
  get_redis_client, get_df, do_slave_of, do_config_set, do_patch_pod, do_patch_pod_status,
  do_repl_takeover, do_client_list, do_client_kill, do_delete_pod, read_now,
}
use dragonfly_operator.Instance.Queries.{has_master_role}

abbrev pub is_bracket : ℕ → Bool
is_bracket c = nat_eq c b'[' || nat_eq c b']'

-- `sanitizeIp`.
unfoldable pub sanitize_ip : String → String
unfolding trim
sanitize_ip = trim is_bracket

-- The pod that is sent to the API server as a master.
unfoldable pub mark_master : Pod → String → Pod
mark_master pod master_ip = record pod {
  labels = erase master_ip_label_key (insert role_label_key master pod.labels);
  annotations = insert master_ip_annotation_key master_ip pod.annotations;
}

-- The pod that is sent to the API server as a replica; the label is written for IPv4 alone.
unfoldable pub mark_replica : Bool → Pod → String → Pod
mark_replica is_ipv4 pod master_ip =
    let labels = insert role_label_key replica pod.labels in
    record pod {
      labels = if is_ipv4 then insert master_ip_label_key master_ip labels else labels;
      annotations = insert master_ip_annotation_key master_ip pod.annotations;
    }

-- The schedule, where snapshots are taken on the master only.
abbrev pub master_only_cron : Option Snapshot → Option String
master_only_cron none = none
master_only_cron (some snapshot) =
    if snapshot.enable_on_master_only then some snapshot.cron else none

-- The loop that looks whether the condition has the status already.
unfoldable pub has_condition : String → String → List PodCondition → Bool
has_condition type status [] = false
has_condition type status (c ∷ conditions) =
    if c.type == type && c.status == status then true else has_condition type status conditions

-- The first condition of the type gets the status, or a new one is appended.
unfoldable pub set_condition : String → String → ℕ → List PodCondition → List PodCondition
set_condition type status now [] =
    record { type = type; status = status; last_transition_time = now } ∷ []
set_condition type status now (c ∷ conditions) =
    if c.type == type
    then record c { status = status; last_transition_time = now } ∷ conditions
    else c ∷ set_condition type status now conditions

abbrev pub condition_status : Bool → String
condition_status true = "True"
condition_status false = "False"

-- The clients that are left alone, by their line of `CLIENT LIST`.
unfoldable pub is_spared : String → Bool
is_spared line =
    contains line "addr=127.0.0.1"
    || contains line "addr=::1"
    || contains line "addr=[::1]"
    || contains line "name=repl_"
    || contains line "name=dragonfly-operator"

-- The value of the first part that begins with `addr=`.
unfoldable pub find_addr : List String → Option String
find_addr [] = none
find_addr (part ∷ parts) =
    if has_prefix part "addr=" then some (trim_prefix part "addr=") else find_addr parts

-- The address to kill, by a client's line.
unfoldable pub victim : String → Option String
unfolding is_spared find_addr
victim line = if line == "" || is_spared line then none else find_addr (split b' ' line)

-- `ip != nil && ip.To4() != nil` for `ip = net.ParseIP(text)`, which is not part of this repository.
module _ (env : Env) (is_ipv4 : String → Bool) where
  -- A kill that fails is logged, and the loop goes on.
  abbrev pub kill_victim : String → Option String → M (Unit {0})
  kill_victim c none = pure tt
  kill_victim c (some addr) = attempt (do_client_kill env c addr) >>= λ _. pure tt

  unfoldable pub kill_clients : String → List String → M (Unit {0})
  unfolding victim
  kill_clients c [] = pure tt
  kill_clients c (line ∷ lines) = kill_victim c (victim line) >> kill_clients c lines

  abbrev pub kill_listed : String → Result String → M (Unit {0})
  kill_listed c (err e) = pure tt
  kill_listed c (ok lines) = kill_clients c (split b'\n' lines)

  unfoldable pub disconnect_clients : String → M (Unit {0})
  unfolding kill_clients
  disconnect_clients c = do listed ← attempt (do_client_list env c); kill_listed c listed

  abbrev pub config_cron : String → String → (String → String) → Option String → M (Unit {0})
  config_cron c failure schedule none = pure tt
  config_cron c failure schedule (some cron) =
      wrapping failure (do_config_set env c "snapshot_cron" (schedule cron))

  -- `snapshot_cron` is set where snapshots are taken on the master only.
  unfoldable pub set_cron : String → String → (String → String) → M (Unit {0})
  set_cron c failure schedule = do
    df ← get_df
    config_cron c failure schedule (master_only_cron df.spec.snapshot)

  unfoldable pub expect_ok : String → String → M (Unit {0})
  expect_ok failure resp = if not (resp == "OK") then fail (errorf (failure <> resp)) else pure tt

  -- Clients are kept from sending commands to an old master.
  unfoldable pub disconnect_old_master : String → Bool → Pod → M Pod
  unfolding disconnect_clients
  disconnect_old_master c was_master patched =
      if was_master then disconnect_clients c >> pure patched else pure patched

  -- The pod as the API server answers it. The error of `SLAVE OF` is not wrapped: its text is kept.
  unfoldable pub replica_of : Pod → String → M Pod
  unfolding get_redis_client has_master_role disconnect_old_master set_cron expect_ok mark_replica
      sanitize_ip
  replica_of pod ip = do
    c ← get_redis_client pod.pod_ip
    was_master ←
        wrapping "failed to determine the current role of the instance" (has_master_role env c)
    let master_ip = sanitize_ip ip
    set_cron c ("failed to clear snapshot_cron on replica " <> pod.name) (λ _. "")
    resp ←
        flattening "error running SLAVE OF command: "
          (do_slave_of env c master_ip dragonfly_admin_port)
    expect_ok "response of `SLAVE OF` on replica is not OK: " resp
    patched ←
        wrapping "could not update replica metadata"
          (do_patch_pod env pod (mark_replica (is_ipv4 master_ip) pod master_ip))
    disconnect_old_master c was_master patched

  unfoldable pub configure_replica : Pod → String → M Pod
  unfolding replica_of
  configure_replica pod master_ip = replica_of pod master_ip

  unfoldable pub replica_of_no_one : Pod → M Pod
  unfolding get_redis_client set_cron expect_ok mark_master
  replica_of_no_one pod = do
    c ← get_redis_client pod.pod_ip
    resp ← wrapping "error running SLAVE OF NO ONE command" (do_slave_of env c "NO" "ONE")
    expect_ok "response of `SLAVE OF NO ONE` on master is not OK: " resp
    set_cron c ("failed to set snapshot_cron on master " <> pod.name) (λ cron. cron)
    do_patch_pod env pod (mark_master pod pod.pod_ip)

  unfoldable pub repl_takeover : Pod → Pod → M Pod
  unfolding get_redis_client set_cron expect_ok mark_master
  repl_takeover new_master old_master = do
    c ← get_redis_client new_master.pod_ip
    resp ← wrapping "error running REPLTAKEOVER command" (do_repl_takeover env c "5")
    expect_ok "response of `REPLTAKEOVER` on replica is not OK: " resp
    set_cron c ("failed to set snapshot_cron on master " <> new_master.name) (λ cron. cron)
    patched ←
        wrapping "failed to update the role label on the pod"
          (do_patch_pod env new_master (mark_master new_master new_master.pod_ip))
    wrapping "failed to delete pod" (do_delete_pod env old_master)
    pure patched

  unfoldable pub patch_replication_ready_condition : Pod → Bool → M Pod
  unfolding has_condition set_condition
  patch_replication_ready_condition pod ready =
      let type = replication_ready_condition_type in
      let status = condition_status ready in
      if has_condition type status pod.conditions then pure pod else do
        now ← read_now env
        wrapping ("failed to patch replication ready condition on pod " <> pod.name) (
            do_patch_pod_status env pod
              (record pod { conditions = set_condition type status now pod.conditions }))

  -- The condition follows where the readiness gate is enabled.
  unfoldable pub patch_if_gated : Pod → Bool → M Pod
  unfolding patch_replication_ready_condition
  patch_if_gated pod ready = do
    df ← get_df
    if df.spec.enable_replication_readiness_gate
        then patch_replication_ready_condition pod ready
        else pure pod

  unfoldable pub delete_role_label : Pod → M Pod
  unfolding patch_if_gated
  delete_role_label pod = do
    patched ← do_patch_pod env pod (record pod { labels = erase role_label_key pod.labels })
    patch_if_gated patched false
