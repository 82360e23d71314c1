-- ===== src/Election/Determined.antt =====
-- `selectMasterCandidate` on the same pods in two orders.
use mathlib.Core.List.{Memᴰ}
use dragonfly_operator.Prelude.{
  ◌≡◌, Bool, false, not, Option, none, some, List, [], ◌∷◌, inl, inr, arith, if◌then◌else◌,
}
use dragonfly_operator.Prelude.Int.{ℤ, ltb_ℤ, eq_ℤ}
use dragonfly_operator.Kube.{Pod}
use dragonfly_operator.Election.{
  MasterCandidate, get_ordinal, is_better_candidate, same, select_master_candidate,
}
use dragonfly_operator.Election.Best.{
  IsBest, IsElected, ready_candidates, select_master_candidate-IsElected,
}

tied :
    (r r' : Bool) (o o' n n' : ℤ)
    → (if not (same r r') then r else if not (eq_ℤ o o') then ltb_ℤ o' o else ltb_ℤ n n') ≡ false
    → (if not (same r' r) then r' else if not (eq_ℤ o' o) then ltb_ℤ o o' else ltb_ℤ n' n) ≡ false
    → n ≡ n'
tied r r' o o' n n' h k = ground arith

-- Of two candidates of which neither is better than the other, the ordinals are the same.
is_better_candidate-tied :
    (a b : MasterCandidate)
    → is_better_candidate a b ≡ false
    → is_better_candidate b a ≡ false
    → get_ordinal a.pod.name ≡ get_ordinal b.pod.name
unfolding is_better_candidate
is_better_candidate-tied a b h k =
    tied a.is_replica b.is_replica a.offset b.offset (get_ordinal a.pod.name)
      (get_ordinal b.pod.name) h k

pub IsBest-at :
    (b c : MasterCandidate) (cs : List MasterCandidate)
    → IsBest b cs
    → Memᴰ c cs
    → is_better_candidate c b ≡ false
IsBest-at b c [] h m = elim m [ ]
IsBest-at b c (d ∷ cs) (h, k) (Memᴰ.head e) = rw e h
IsBest-at b c (d ∷ cs) (h, k) (Memᴰ.tail m) = IsBest-at b c cs k m

-- The two elections have the same outcome: no pod, or pods with the same ordinal.
abbrev pub SameOrdinal : Option Pod → Option Pod → Type 0
SameOrdinal none none = Unit
SameOrdinal (some p) (some q) = get_ordinal p.name ≡ get_ordinal q.name
SameOrdinal _ _ = ⊥

abbrev pub Contains : List MasterCandidate → List MasterCandidate → Type 0
Contains cs ds = (c : MasterCandidate) → Memᴰ c cs → Memᴰ c ds

pub nothing_in_nil : {c : MasterCandidate} → Memᴰ c [] → ⊥
nothing_in_nil m = elim m [ ]

module _ {S : Type 0} (is_ready : Pod → S → Bool × S)
    (get_candidate : Pod → S → MasterCandidate × S) where
  IsElected-SameOrdinal :
      (cs ds : List MasterCandidate) (r q : Option Pod)
      → Contains cs ds
      → Contains ds cs
      → IsElected is_ready get_candidate cs r
      → IsElected is_ready get_candidate ds q
      → SameOrdinal r q
  IsElected-SameOrdinal cs ds r q h k (inl (a, e)) (inl (b, f)) = rw (e, f) tt
  IsElected-SameOrdinal cs ds r q h k (inl (a, e)) (inr (d, m, best, f)) =
      let n = k d m in absurd (nothing_in_nil (rw a at n))
  IsElected-SameOrdinal cs ds r q h k (inr (c, m, best, e)) (inl (b, f)) =
      let n = h c m in absurd (nothing_in_nil (rw b at n))
  IsElected-SameOrdinal cs ds r q h k (inr (c, m, best, e)) (inr (d, n, best', f)) =
      rw (e, f)
        (is_better_candidate-tied c d (IsBest-at d c ds best' (h c m))
          (IsBest-at c d cs best (k d n)))

  -- If two elections find the same ready candidates, in whatever order the pods are listed, both elect
  -- nothing or both elect pods with the same ordinal.
  pub select_master_candidate-SameOrdinal :
      (pods others : List Pod) (s t : S)
      → Contains
          (ready_candidates is_ready get_candidate pods s).0
          (ready_candidates is_ready get_candidate others t).0
      → Contains
          (ready_candidates is_ready get_candidate others t).0
          (ready_candidates is_ready get_candidate pods s).0
      → SameOrdinal
          (select_master_candidate is_ready get_candidate pods s).0
          (select_master_candidate is_ready get_candidate others t).0
  select_master_candidate-SameOrdinal pods others s t h k =
      IsElected-SameOrdinal _ _ _ _ h k
        (select_master_candidate-IsElected is_ready get_candidate pods s).1
        (select_master_candidate-IsElected is_ready get_candidate others t).1
