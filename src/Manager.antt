-- ===== src/Manager.antt =====
-- What the operator watches: the namespaces, and the pods of its cache (cmd/main.go).
pub mod Namespaces
pub mod Watched
pub mod Entry
use dragonfly_operator.Prelude.{
  String, Bool, true, false, Option, none, some, List, [], ◌∷◌, if◌then◌else◌,
}
use dragonfly_operator.Prelude.Dict.{Dict, lookup, insert}
use dragonfly_operator.Kube.{kubernetes_app_name_label_key, kubernetes_app_name}
use dragonfly_operator.Text.{split, trim_space, is_empty}

-- The namespaces of the contexts of a kubeconfig by their names, where a nil context is `none`, and the
-- name of the current one.
pub record KubeConfig : Type 0 where
  pub contexts : Dict (Option String)
  pub current_context : String

-- What the operator reads at its start: the flag `watch-current-namespace`, the environment variables
-- `WATCH_NAMESPACE` (`none` where it is not set) and `POD_NAMESPACE`, the file of the service account,
-- and the kubeconfig, where `none` is an error and `some none` is nil.
pub record Start : Type 0 where
  pub watch_current_namespace : Bool
  pub watch_namespace : Option String
  pub pod_namespace : String
  pub service_account_namespace : Option String
  pub kube_config : Option (Option KubeConfig)

abbrev pub default_namespace : String
default_namespace = "default"

unfoldable pub get_watch_namespace_from_env_variable : Start → String
get_watch_namespace_from_env_variable start = elim start.watch_namespace [
  | none ↦ ""
  | some namespace ↦ namespace
]

abbrev trim_read : Option String → String
trim_read none = ""
trim_read (some text) = trim_space text

unfoldable pub get_pod_namespace : Start → String
unfolding trim_space
get_pod_namespace start =
    let namespace = trim_space start.pod_namespace in
    if is_empty namespace then trim_read start.service_account_namespace else namespace

abbrev pub or_default : Option (Option String) → String
or_default none = default_namespace
or_default (some none) = default_namespace
or_default (some (some namespace)) = if is_empty namespace then default_namespace else namespace

unfoldable pub resolve_current_namespace : Option KubeConfig → String
unfolding lookup
resolve_current_namespace none = default_namespace
resolve_current_namespace (some client_cfg) =
    or_default (lookup client_cfg.current_context client_cfg.contexts)

abbrev pub from_kube_config : Option (Option KubeConfig) → String
from_kube_config none = default_namespace
from_kube_config (some client_cfg) = resolve_current_namespace client_cfg

unfoldable pub get_current_namespace : Start → String
unfolding get_pod_namespace resolve_current_namespace
get_current_namespace start =
    let namespace = get_pod_namespace start in
    if is_empty namespace then from_kube_config start.kube_config else namespace

-- `watchNamespaces` in `main`.
unfoldable pub watch_namespaces : Start → String
unfolding get_watch_namespace_from_env_variable get_current_namespace
watch_namespaces start =
    if start.watch_current_namespace
    then get_current_namespace start
    else get_watch_namespace_from_env_variable start

-- `nsList[value] = cache.Config{}` for each part.
abbrev pub put_namespaces : List String → Dict (Unit {0}) → Dict (Unit {0})
put_namespaces [] namespaces = namespaces
put_namespaces (value ∷ values) namespaces = put_namespaces values (insert value tt namespaces)

-- The default namespaces of the cache; `none` leaves the options alone, and the cache then has all
-- namespaces.
unfoldable pub add_namespaces_to_opts : String → Option (Dict (Unit {0}))
unfolding split insert
add_namespaces_to_opts namespaces =
    if is_empty namespaces then none else some (put_namespaces (split b',' namespaces) [])

-- The selector of the pods that the cache holds, in `cacheOptions`.
abbrev pub pod_cache_labels : Dict String
pod_cache_labels = (kubernetes_app_name_label_key, kubernetes_app_name) ∷ []
