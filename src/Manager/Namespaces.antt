-- ===== src/Manager/Namespaces.antt =====
-- The namespace that the operator runs in, and the list of namespaces (cmd/main.go).
use dragonfly_operator.Prelude.{String, Bool, true, false, ◌||◌, Option, none, some}
use dragonfly_operator.Prelude.Dict.{Dict, lookup}

abbrev pub is_present : Option (Unit {0}) → Bool
is_present none = false
is_present (some found) = true

-- Whether a namespace is in the cache: controller-runtime reads the key that is empty
-- (`cache.AllNamespaces`) as all namespaces that have no key of their own.
abbrev pub is_cached : String → Option (Dict (Unit {0})) → Bool
is_cached namespace none = true
is_cached namespace (some namespaces) =
    is_present (lookup namespace namespaces) || is_present (lookup "" namespaces)
