-- ===== src/Election/Preference.antt =====
-- Roles and offsets in the outcome of `selectMasterCandidate`.
use mathlib.Core.List.{Memᴰ}
use dragonfly_operator.Prelude.{◌≡◌, Bool, true, false, Option, some, List, inl, inr, arith}
use dragonfly_operator.Prelude.Int.{ltb_ℤ}
use dragonfly_operator.Kube.{Pod}
use dragonfly_operator.Election.{MasterCandidate, is_better_candidate, select_master_candidate}
use dragonfly_operator.Election.Best.{
  IsElected, ready_candidates, select_master_candidate-IsElected,
}
use dragonfly_operator.Election.Determined.{IsBest-at, nothing_in_nil}

not_better_than_replica :
    (b c : MasterCandidate)
    → is_better_candidate c b ≡ false
    → c.is_replica ≡ true
    → (b.is_replica ≡ true) × (ltb_ℤ b.offset c.offset ≡ false)
unfolding is_better_candidate
not_better_than_replica b c h r = (ground arith, ground arith)

module _ {S : Type 0} (is_ready : Pod → S → Bool × S)
    (get_candidate : Pod → S → MasterCandidate × S) where
  IsElected-replica :
      (cs : List MasterCandidate) (r : Option Pod) (c : MasterCandidate)
      → IsElected is_ready get_candidate cs r
      → Memᴰ c cs
      → c.is_replica ≡ true
      → (b : MasterCandidate) × Memᴰ b cs
        × (b.is_replica ≡ true)
        × (ltb_ℤ b.offset c.offset ≡ false)
        × (r ≡ some b.pod)
  IsElected-replica cs r c (inl (a, e)) m h = absurd (nothing_in_nil (rw a at m))
  IsElected-replica cs r c (inr (b, n, best, e)) m h =
      let (role, offset) = not_better_than_replica b c (IsBest-at b c cs best m) h in
      (b, n, role, offset, e)

  -- If one of the ready candidates is a replica, the elected pod is that of a ready replica too, whose
  -- replication offset is not smaller: a pod with no data is elected only if no ready pod is a replica.
  pub select_master_candidate-prefers_replicas :
      (pods : List Pod) (s : S) (c : MasterCandidate)
      → Memᴰ c (ready_candidates is_ready get_candidate pods s).0
      → c.is_replica ≡ true
      → (b : MasterCandidate) × Memᴰ b (ready_candidates is_ready get_candidate pods s).0
        × (b.is_replica ≡ true)
        × (ltb_ℤ b.offset c.offset ≡ false)
        × ((select_master_candidate is_ready get_candidate pods s).0 ≡ some b.pod)
  select_master_candidate-prefers_replicas pods s c m h =
      IsElected-replica _ _ c (select_master_candidate-IsElected is_ready get_candidate pods s).1 m
        h
