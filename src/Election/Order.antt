-- ===== src/Election/Order.antt =====
-- `isBetterCandidate` as an order.
use dragonfly_operator.Prelude.{◌≡◌, Bool, true, false, ◌&&◌, arith, if◌then◌else◌, not}
use dragonfly_operator.Prelude.Int.{ℤ, ltb_ℤ, eq_ℤ}
use dragonfly_operator.Election.{MasterCandidate, get_ordinal, is_better_candidate, same}

-- The comparison of the keys: has data, replication offset, ordinal.
better : Bool → ℤ → ℤ → Bool → ℤ → ℤ → Bool
better r o n r' o' n' =
    if not (same r r') then r else if not (eq_ℤ o o') then ltb_ℤ o' o else ltb_ℤ n n'

-- `isBetterCandidate` orders candidates strictly: none is better than itself, and of two no more than
-- one is better than the other.
pub is_better_candidate_strict :
    (a b : MasterCandidate)
    → (is_better_candidate a a ≡ false)
      × (is_better_candidate a b ≡ true → is_better_candidate b a ≡ false)
unfolding is_better_candidate
is_better_candidate_strict a b = ground arith

better_neg_trans :
    (r r' r'' : Bool) (o o' o'' n n' n'' : ℤ)
    → better r' o' n' r o n ≡ false
    → better r'' o'' n'' r' o' n' ≡ false
    → better r'' o'' n'' r o n ≡ false
unfolding better
better_neg_trans r r' r'' o o' o'' n n' n'' h k = ground arith

-- Where `b` is not better than `a`, nor `c` than `b`, `c` is not better than `a`.
pub is_better_candidate_neg_trans :
    (a b c : MasterCandidate)
    → is_better_candidate b a ≡ false
    → is_better_candidate c b ≡ false
    → is_better_candidate c a ≡ false
unfolding is_better_candidate better
is_better_candidate_neg_trans a b c h k =
    better_neg_trans a.is_replica b.is_replica c.is_replica a.offset b.offset c.offset
      (get_ordinal a.pod.name) (get_ordinal b.pod.name) (get_ordinal c.pod.name) h k

-- `isBetterCandidate` is a strict weak order: no candidate is better than itself, of two no more than
-- one is better than the other, and a candidate that is better than another is better than any third
-- or the third is better than the other.
pub is_better_candidate-IsStrictWeakOrder :
    (a b c : MasterCandidate)
    → (is_better_candidate a a ≡ false)
      × ((is_better_candidate a b && is_better_candidate b a) ≡ false)
      × ((is_better_candidate c a && not (is_better_candidate c b) && not (is_better_candidate b a))
          ≡ false)
is_better_candidate-IsStrictWeakOrder a b c = (
  (is_better_candidate_strict a b).0,
  ground (arith, is_better_candidate_strict a b),
  ground (arith, is_better_candidate_neg_trans a b c),
)
