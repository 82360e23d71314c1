-- ===== src/Tests/Elections.antt =====
-- The theorems on the election at concrete inputs.
use dragonfly_operator.Prelude.{
  ◌&&◌, not, some, ◌≡◌, refl, Bool, true, false, [], ◌∷◌, not, arith, ℕ, ◌+◌, ◌<>◌,
}
use dragonfly_operator.Prelude.Int.{ltb_ℤ, pos}
use dragonfly_operator.Election.Preference.{select_master_candidate-prefers_replicas}
use dragonfly_operator.Kube.{Pod}
use dragonfly_operator.Pods.{is_master, is_replica}
use dragonfly_operator.Election.{
  MasterCandidate, is_better_candidate, select_master_candidate, get_ordinal,
}
use dragonfly_operator.Election.Order.{is_better_candidate-IsStrictWeakOrder}
use dragonfly_operator.Election.Best.{
  ready_candidates, IsElected, select_master_candidate-IsElected,
}
use mathlib.Core.List.{Memᴰ}
use dragonfly_operator.Text.{digits}
use dragonfly_operator.Election.Determined.{
  SameOrdinal, Contains, select_master_candidate-SameOrdinal,
}
use dragonfly_operator.Election.Ordinal.{get_ordinal-digits}
use dragonfly_operator.Tests.World.{master_pod, replica_pod, outdated_pod}

-- One candidate that has data and one that has none.
abbrev behind : MasterCandidate
behind = record { pod = replica_pod; is_replica = true; offset = pos 10 }

abbrev ahead : MasterCandidate
ahead = record { pod = outdated_pod; is_replica = true; offset = pos 20 }

abbrev empty_one : MasterCandidate
empty_one = record { pod = master_pod; is_replica = false; offset = pos 30 }

-- The pods are ready, and the state counts the questions.
abbrev count_ready : Pod → ℕ → Bool × ℕ
count_ready pod n = (not (is_master pod), n + 1)

abbrev count_candidate : Pod → ℕ → MasterCandidate × ℕ
count_candidate pod n = (record { pod = pod; is_replica = is_replica pod; offset = pos n }, n + 1)

select_master_candidate-IsElected_example :
    ((select_master_candidate count_ready count_candidate
        (master_pod ∷ replica_pod ∷ outdated_pod ∷ [])
        0).1
      ≡ (ready_candidates count_ready count_candidate
          (master_pod ∷ replica_pod ∷ outdated_pod ∷ [])
          0).1)
    × IsElected count_ready count_candidate
        (ready_candidates count_ready count_candidate
          (master_pod ∷ replica_pod ∷ outdated_pod ∷ [])
          0).0
        (select_master_candidate count_ready count_candidate
          (master_pod ∷ replica_pod ∷ outdated_pod ∷ [])
          0).0
select_master_candidate-IsElected_example =
    select_master_candidate-IsElected count_ready count_candidate
      (master_pod ∷ replica_pod ∷ outdated_pod ∷ []) 0

is_better_candidate-IsStrictWeakOrder_example :
    (is_better_candidate ahead ahead ≡ false)
    × ((is_better_candidate ahead behind && is_better_candidate behind ahead) ≡ false)
    × ((is_better_candidate empty_one ahead
          && not (is_better_candidate empty_one behind)
          && not (is_better_candidate behind ahead))
        ≡ false)
is_better_candidate-IsStrictWeakOrder_example =
    is_better_candidate-IsStrictWeakOrder ahead behind empty_one

get_ordinal-digits_example : get_ordinal ("df-a" <> ("-" <> "12")) ≡ pos 12
unfolding digits
get_ordinal-digits_example = get_ordinal-digits "df-a" "12" 12 refl (omega arith)

abbrev always_ready : Pod → Unit {0} → Bool × Unit {0}
always_ready pod s = (true, s)

abbrev same_candidate : Pod → Unit {0} → MasterCandidate × Unit {0}
same_candidate pod s = (record { pod = pod; is_replica = true; offset = pos 10 }, s)

swapped : {a b : MasterCandidate} → Contains (a ∷ b ∷ []) (b ∷ a ∷ [])
swapped c (Memᴰ.head e) = Memᴰ.tail (Memᴰ.head e)
swapped c (Memᴰ.tail (Memᴰ.head e)) = Memᴰ.head e
swapped c (Memᴰ.tail (Memᴰ.tail m)) = elim m [ ]

select_master_candidate-SameOrdinal_example :
    SameOrdinal
      (select_master_candidate always_ready same_candidate (replica_pod ∷ outdated_pod ∷ []) tt).0
      (select_master_candidate always_ready same_candidate (outdated_pod ∷ replica_pod ∷ []) tt).0
unfolding ready_candidates
select_master_candidate-SameOrdinal_example =
    select_master_candidate-SameOrdinal always_ready same_candidate
      (replica_pod ∷ outdated_pod ∷ []) (outdated_pod ∷ replica_pod ∷ []) tt tt swapped swapped

select_master_candidate-prefers_replicas_example :
    (b : MasterCandidate) × Memᴰ b
      (ready_candidates always_ready same_candidate (replica_pod ∷ outdated_pod ∷ []) tt).0
    × (b.is_replica ≡ true)
    × (ltb_ℤ b.offset (pos 10) ≡ false)
    × ((select_master_candidate always_ready same_candidate (replica_pod ∷ outdated_pod ∷ []) tt).0
        ≡ some b.pod)
unfolding ready_candidates
select_master_candidate-prefers_replicas_example =
    select_master_candidate-prefers_replicas always_ready same_candidate
      (replica_pod ∷ outdated_pod ∷ []) tt (same_candidate replica_pod tt).0 (Memᴰ.head refl) refl
