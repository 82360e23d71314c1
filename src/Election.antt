-- ===== src/Election.antt =====
-- The election of a master: `getOrdinal`, `isBetterCandidate` and `selectMasterCandidate` of
-- internal/controller/util.go.
pub mod Order
pub mod Best
pub mod Determined
pub mod Preference
pub mod Ordinal
pub mod Bounds
use dragonfly_operator.Prelude.{
  ℕ, String, Bool, true, false, not, ◌||◌, Option, none, some, List, [], ◌∷◌, ltb, length,
  if◌then◌else◌,
}
use dragonfly_operator.Prelude.Int.{ℤ, pos, ltb_ℤ, eq_ℤ}
use dragonfly_operator.Text.{split, parse_int, max_int}
use dragonfly_operator.Kube.{Pod}

pub record MasterCandidate : Type 0 where
  pub pod : Pod
  pub is_replica : Bool
  pub offset : ℤ

abbrev last_or : String → List String → String
last_or d [] = d
last_or d (x ∷ xs) = last_or x xs

abbrev or_max : Option ℤ → ℤ
or_max none = pos max_int
or_max (some n) = n

unfoldable pub get_ordinal : String → ℤ
unfolding split parse_int
get_ordinal pod_name =
    let parts = split b'-' pod_name in
    if ltb (length parts) 2 then pos max_int else or_max (parse_int (last_or "" parts))

abbrev same : Bool → Bool → Bool
same true b = b
same false b = not b

unfoldable pub is_better_candidate : MasterCandidate → MasterCandidate → Bool
is_better_candidate a b =
    if not (same a.is_replica b.is_replica)
    then a.is_replica
    else if not (eq_ℤ a.offset b.offset)
    then ltb_ℤ b.offset a.offset
    else ltb_ℤ (get_ordinal a.pod.name) (get_ordinal b.pod.name)

-- `if best == nil || isBetterCandidate(&c, best) { best = &c }`.
unfoldable pub improve : MasterCandidate → Option MasterCandidate → Option MasterCandidate
improve c none = some c
improve c (some best) = if is_better_candidate c best then some c else some best

abbrev pub pod_of : Option MasterCandidate → Option Pod
pod_of none = none
pod_of (some best) = some best.pod

-- The two callbacks ask the pods, so they run over a state.
module _ {S : Type 0} (is_ready : Pod → S → Bool × S)
    (get_candidate : Pod → S → MasterCandidate × S) where
  unfoldable pub select_loop : List Pod → Option MasterCandidate → S → Option MasterCandidate × S
  unfolding improve
  select_loop [] best s = (best, s)
  select_loop (p ∷ pods) best s =
      let (ready, t) = is_ready p s in
      let (c, u) = get_candidate p t in
      let skipped = select_loop pods best t in
      let taken = select_loop pods (improve c best) u in if not ready then skipped else taken

  unfoldable pub select_master_candidate : List Pod → S → Option Pod × S
  unfolding select_loop
  select_master_candidate pods s = let (best, t) = select_loop pods none s in (pod_of best, t)
