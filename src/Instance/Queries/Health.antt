-- ===== src/Instance/Queries/Health.antt =====
-- When a pod counts as ready (`isPodReady`, `isDatasetLoaded`).
use dragonfly_operator.Prelude.{String, Bool, false, not, ◌&&◌, ◌≡◌, arith, ◌==◌}
use dragonfly_operator.Kube.{Pod}
use dragonfly_operator.Pods.{is_healthy}
use dragonfly_operator.Info.{parse_info_to_map}
use dragonfly_operator.Effects.Errors.{Result, ok, err}
use dragonfly_operator.Effects.Calls.{Env, Instance, ◌>>=◌}
use dragonfly_operator.Effects.Changes.{connected}
use dragonfly_operator.Instance.Queries.{is_loading, is_pod_ready, is_syncing}

-- An answer that is an error counts as `false`.
abbrev pub answers_true : Result Bool → Bool
answers_true (ok b) = b
answers_true (err e) = false

-- The reply says that the dataset is loaded.
abbrev pub is_loaded_reply : Result String → Bool
is_loaded_reply (err e) = false
is_loaded_reply (ok text) = not (is_loading (parse_info_to_map text))

-- The reply says that the replica is in stable sync.
abbrev pub is_synced_reply : Result String → Bool
is_synced_reply (err e) = false
is_synced_reply (ok text) = not (text == "") && not (is_syncing (parse_info_to_map text))

module _ (env : Env) (pod : Pod) (s : Instance) where
  -- A pod is found ready exactly if it is healthy (running, with its containers ready, and not
  -- terminating), has an address, and replies that its dataset is loaded; and a pod that is not healthy
  -- is found not ready with no call made.
  pub is_pod_ready_lem :
      (answers_true (is_pod_ready env pod s).0 ≡ (
        is_healthy pod
        && not (pod.pod_ip == "")
        && is_loaded_reply (env.info (connected pod.pod_ip s) pod.pod_ip "persistence")))
      × (is_healthy pod ≡ false → is_pod_ready env pod s ≡ (ok false, s))
  unfolding is_pod_ready is_healthy ◌>>=◌
  is_pod_ready_lem = (ground arith, λ h. ground arith)
