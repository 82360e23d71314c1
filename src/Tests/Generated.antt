-- ===== src/Tests/Generated.antt =====
-- The theorems on the generated resources at concrete inputs.
use dragonfly_operator.Prelude.{◌≡◌, String, [], ◌∷◌}
use dragonfly_operator.Prelude.Dict.{or_else}
use dragonfly_operator.Kube.{Pod}
use dragonfly_operator.Resources.{merge_named_slices}
use dragonfly_operator.Resources.Merge.{find_named, find_named-merge_named_slices}
use dragonfly_operator.Tests.World.{master_pod, replica_pod, outdated_pod}

abbrev name_of : Pod → String
name_of pod = pod.name

find_named-merge_named_slices_example :
    find_named name_of "df-1"
      (merge_named_slices name_of (master_pod ∷ replica_pod ∷ []) (outdated_pod ∷ []))
    ≡ or_else
        (find_named name_of "df-1" (outdated_pod ∷ []))
        (find_named name_of "df-1" (master_pod ∷ replica_pod ∷ []))
find_named-merge_named_slices_example =
    find_named-merge_named_slices name_of "df-1" (master_pod ∷ replica_pod ∷ []) (outdated_pod ∷ [])
