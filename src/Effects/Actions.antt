-- ===== src/Effects/Actions.antt =====
-- One action for each call to the outside, and the cache of Redis clients (`getRedisClient`, `Close`).
use dragonfly_operator.Prelude.{ℕ, String, Bool, false, ◌||◌, List, [], ◌∷◌, ◌==◌, if◌then◌else◌}
use dragonfly_operator.Prelude.Dict.{Dict}
use dragonfly_operator.Kube.{Pod, Dragonfly, StatefulSet}
use dragonfly_operator.Kube.Objects.{Object}
use dragonfly_operator.Effects.Errors.{ok}
use dragonfly_operator.Effects.Calls.{
  gets, History, Env, Instance, M, perform, get_stateful_set, list_pods, patch_pod,
  patch_pod_status, delete_pod, patch_dragonfly_status, record_event, new_client, close_client,
  get_object, create_object, patch_object, delete_budget, info, ping, slave_of, config_set,
  repl_takeover, client_list, client_kill,
}

abbrev pub member : String → List String → Bool
member k [] = false
member k (x ∷ xs) = x == k || member k xs

-- The client is known by the address that it talks to.
unfoldable pub get_redis_client : String → M String
get_redis_client pod_ip s =
    if member pod_ip s.clients
    then (ok pod_ip, s)
    else (ok pod_ip, record s { clients = pod_ip ∷ s.clients; calls = new_client pod_ip ∷ s.calls })

unfoldable pub close_all : List String → History → History
close_all [] calls = calls
close_all (ip ∷ ips) calls = close_all ips (close_client ip ∷ calls)

unfoldable pub close : Instance → Instance
unfolding close_all
close s = record s { clients = []; calls = close_all s.clients s.calls }

abbrev pub do_event : String → String → M (Unit {0})
do_event reason message = perform (record_event reason message) (λ _. ok tt)

abbrev pub get_df : M Dragonfly
get_df = gets (λ s. s.df)

module _ (env : Env) where
  abbrev pub do_get_stateful_set : String → String → M StatefulSet
  do_get_stateful_set ns name =
      perform (get_stateful_set ns name) (λ h. env.get_stateful_set h ns name)

  abbrev pub do_list_pods : String → Dict String → M (List Pod)
  do_list_pods ns labels = perform (list_pods ns labels) (λ h. env.list_pods h ns labels)

  -- The client writes the answer over the object, so the new object is the result.
  abbrev pub do_patch_pod : Pod → Pod → M Pod
  do_patch_pod before after = perform (patch_pod before after) (λ h. env.patch_pod h before after)

  abbrev pub do_patch_pod_status : Pod → Pod → M Pod
  do_patch_pod_status before after =
      perform (patch_pod_status before after) (λ h. env.patch_pod_status h before after)

  abbrev pub do_delete_pod : Pod → M (Unit {0})
  do_delete_pod pod = perform (delete_pod pod) (λ h. env.delete_pod h pod)

  abbrev pub do_patch_dragonfly_status : Dragonfly → Dragonfly → M Dragonfly
  do_patch_dragonfly_status before after =
      perform (patch_dragonfly_status before after) (λ h. env.patch_dragonfly_status h before after)

  abbrev pub do_get_object : String → String → String → M Object
  do_get_object kind ns name =
      perform (get_object kind ns name) (λ h. env.get_object h kind ns name)

  abbrev pub do_create_object : Object → M (Unit {0})
  do_create_object object = perform (create_object object) (λ h. env.create_object h object)

  abbrev pub do_patch_object : Object → Object → M (Unit {0})
  do_patch_object before after =
      perform (patch_object before after) (λ h. env.patch_object h before after)

  abbrev pub do_delete_budget : String → String → M (Unit {0})
  do_delete_budget ns name = perform (delete_budget ns name) (λ h. env.delete_budget h ns name)

  abbrev pub read_now : M ℕ
  read_now = gets (λ s. env.now s.calls)

  abbrev pub do_info : String → String → M String
  do_info ip section = perform (info ip section) (λ h. env.info h ip section)

  abbrev pub do_ping : String → M (Unit {0})
  do_ping ip = perform (ping ip) (λ h. env.ping h ip)

  abbrev pub do_slave_of : String → String → String → M String
  do_slave_of ip host port = perform (slave_of ip host port) (λ h. env.slave_of h ip host port)

  abbrev pub do_config_set : String → String → String → M (Unit {0})
  do_config_set ip key value =
      perform (config_set ip key value) (λ h. env.config_set h ip key value)

  abbrev pub do_repl_takeover : String → String → M String
  do_repl_takeover ip timeout =
      perform (repl_takeover ip timeout) (λ h. env.repl_takeover h ip timeout)

  abbrev pub do_client_list : String → M String
  do_client_list ip = perform (client_list ip) (λ h. env.client_list h ip)

  abbrev pub do_client_kill : String → String → M (Unit {0})
  do_client_kill ip addr = perform (client_kill ip addr) (λ h. env.client_kill h ip addr)
