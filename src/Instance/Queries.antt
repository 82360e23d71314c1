-- ===== src/Instance/Queries.antt =====
-- The methods of `DragonflyInstance` that only ask: for pods, stateful sets and the pods' `INFO`.
pub mod Health
use dragonfly_operator.Prelude.{
  String, Bool, true, false, not, ◌&&◌, ◌||◌, Option, none, some, List, [], ◌∷◌, ◌<>◌, ◌==◌, nat_eq,
  if◌then◌else◌,
}
use dragonfly_operator.Prelude.Dict.{Dict, lookup, lookup_text}
use dragonfly_operator.Prelude.Int.{ℤ, pos}
use dragonfly_operator.Text.{split, contains, has_prefix, trim, trim_space, parse_int}
use dragonfly_operator.Kube.{
  Pod, Dragonfly, StatefulSet, master, replica, role_label_key, master_ip_label_key,
  master_ip_annotation_key, dragonfly_name_label_key, kubernetes_part_of_label_key,
  kubernetes_part_of, kubernetes_app_name_label_key, kubernetes_app_name,
}
use dragonfly_operator.Pods.{is_running_and_ready, is_terminating, is_replica}
use dragonfly_operator.Election.{MasterCandidate}
use dragonfly_operator.Info.{parse_info_to_map}
use dragonfly_operator.Effects.Errors.{errorf, Result, ok, err}
use dragonfly_operator.Effects.Calls.{Env, M, Instance, ◌>>=◌, ◌>>◌, pure, fail, wrapping}
use dragonfly_operator.Effects.Actions.{
  get_redis_client, get_df, do_get_stateful_set, do_list_pods, do_info, do_ping,
}

-- `client.MatchingLabels` of the pods of an instance.
abbrev pub instance_labels : Dragonfly → Dict String
instance_labels df =
    (dragonfly_name_label_key, df.name)
    ∷ (kubernetes_part_of_label_key, kubernetes_part_of)
    ∷ (kubernetes_app_name_label_key, kubernetes_app_name)
    ∷ []

abbrev pub with_role : Dict String → String → Dict String
with_role labels role = (role_label_key, role) ∷ labels

-- `if val, ok := data[key]; ok && bad(val)`.
abbrev pub has_value : (String → Bool) → Option String → Bool
has_value bad none = false
has_value bad (some v) = bad v

-- The dataset is still being loaded, by `INFO persistence`.
unfoldable pub is_loading : Dict String → Bool
is_loading info =
    has_value (λ v. not (v == "0") && not (v == "")) (lookup "loading" info)
    || has_value (λ v. not (v == "") && not (v == "done")) (lookup "load_state" info)

-- The replica is not in stable sync, by `INFO replication`.
unfoldable pub is_syncing : Dict String → Bool
is_syncing info =
    has_value (λ v. v == "1") (lookup "master_sync_in_progress" info)
    || has_value (λ v. not (v == "up")) (lookup "master_link_status" info)
    || has_value (λ v. v == "-1") (lookup "master_last_io_seconds_ago" info)

-- `strings.Trim(strings.Split(line, ":")[1], "\r")`. A line with no colon is a panic in Go, here the
-- empty text.
abbrev second : List String → String
second (a ∷ b ∷ parts) = b
second _ = ""

unfoldable pub value_of_line : String → String
value_of_line line = trim (λ c. nat_eq c 13) (second (split b':' line))

-- The value of the last line that contains the key.
unfoldable pub last_value : String → List String → String → String
unfolding value_of_line
last_value key [] found = found
last_value key (line ∷ lines) found =
    last_value key lines (if contains line key then value_of_line line else found)

-- `return "", fmt.Errorf("role not found…")` is `none`.
unfoldable pub find_role : List String → Option String
unfolding value_of_line
find_role [] = none
find_role (line ∷ lines) =
    if has_prefix line "role:" then some (trim_space (value_of_line line)) else find_role lines

-- `checkReplicaRole`, from the reply on.
unfoldable pub is_replica_of : String → Pod → String → Bool
unfolding last_value
is_replica_of resp pod master_ip =
    if last_value "role" (split b'\n' resp) "" == master
    then false
    else if not (master_ip == last_value "master_host" (split b'\n' resp) "")
        && not (master_ip == lookup_text master_ip_label_key pod.labels)
        && not (master_ip == lookup_text master_ip_annotation_key pod.annotations)
    then false
    else true

-- `c.Offset`, from the reply on.
abbrev parse_offset : Option String → ℤ
parse_offset none = pos 0
parse_offset (some text) = elim (parse_int text) [ none ↦ pos 0 | some n ↦ n ]

unfoldable pub offset_of : String → ℤ
offset_of info = parse_offset (lookup "slave_repl_offset" (parse_info_to_map info))

module _ (env : Env) where
  unfoldable pub get_stateful_set : M StatefulSet
  get_stateful_set = do df ← get_df; do_get_stateful_set env df.namespace df.name

  unfoldable pub get_pods : M (List Pod)
  get_pods = do df ← get_df; do_list_pods env df.namespace (instance_labels df)

  unfoldable pub get_replicas : M (List Pod)
  get_replicas = do
    df ← get_df
    do_list_pods env df.namespace (with_role (instance_labels df) replica)

  unfoldable pub get_info : String → String → M String
  unfolding get_redis_client
  get_info ip section = do c ← get_redis_client ip; do_info env c section

  unfoldable pub is_dataset_loaded : Pod → M Bool
  unfolding get_info is_loading
  is_dataset_loaded pod = if pod.pod_ip == "" then pure false else do
    persistence_info ← get_info pod.pod_ip "persistence"
    pure (not (is_loading (parse_info_to_map persistence_info)))

  unfoldable pub is_pod_ready : Pod → M Bool
  unfolding is_dataset_loaded
  is_pod_ready pod =
      if not (is_running_and_ready pod) || is_terminating pod
      then pure false
      else wrapping "failed to determine dataset load status" (is_dataset_loaded pod)

  unfoldable pub is_replica_stable : Pod → M Bool
  unfolding get_info get_redis_client is_syncing is_loading
  is_replica_stable pod = do
    c ← get_redis_client pod.pod_ip
    do_ping env c
    info ← do_info env c "replication"
    if info == ""
        then fail (errorf "empty info")
        else if is_syncing (parse_info_to_map info)
        then pure false
        else do
          persistence_info ← do_info env c "persistence"
          pure (not (is_loading (parse_info_to_map persistence_info)))

  unfoldable pub check_replica_role : Pod → String → M Bool
  unfolding get_info is_replica_of
  check_replica_role pod master_ip = do
    resp ← get_info pod.pod_ip "replication"
    pure (is_replica_of resp pod master_ip)

  unfoldable pub has_master_role : String → M Bool
  has_master_role c = do info ← do_info env c "replication"; pure (contains info "role:master")

  abbrev pub role_or_error : Pod → Option String → M String
  role_or_error pod none = fail (errorf ("role not found in replication info for pod " <> pod.name))
  role_or_error pod (some role) = pure role

  unfoldable pub get_redis_role : Pod → M String
  unfolding get_info find_role
  get_redis_role pod =
      if pod.pod_ip == "" then fail (errorf ("pod IP not available for " <> pod.name)) else do
        resp ← get_info pod.pod_ip "replication"
        role_or_error pod (find_role (split b'\n' resp))

  abbrev pub candidate : Pod → ℤ → MasterCandidate
  candidate pod offset = record { pod = pod; is_replica = is_replica pod; offset = offset }

  abbrev pub offset_or_zero : Result String → ℤ
  offset_or_zero (err e) = pos 0
  offset_or_zero (ok info) = offset_of info

  -- It answers also where the pod does not.
  unfoldable pub get_master_candidate : Pod → Instance → MasterCandidate × Instance
  unfolding get_info offset_of
  get_master_candidate pod s =
      if pod.pod_ip == ""
      then (candidate pod (pos 0), s)
      else let (r, t) = get_info pod.pod_ip "replication" s in (candidate pod (offset_or_zero r), t)

  unfoldable pub first_ready : List Pod → M Pod
  first_ready [] = fail (errorf "no healthy pod found")
  first_ready (pod ∷ pods) = do
    ready ← wrapping "failed to verify pod readiness" (is_pod_ready pod)
    if ready then pure pod else first_ready pods

  unfoldable pub get_healthy_pod : M Pod
  unfolding get_pods first_ready is_pod_ready
  get_healthy_pod = do pods ← wrapping "failed to get dragonfly pods" get_pods; first_ready pods
