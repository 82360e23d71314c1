-- ===== src/Election/Best.antt =====
-- The loop of `selectMasterCandidate` as an election among candidates.
use mathlib.Core.List.{Memᴰ}
use dragonfly_operator.Prelude.{
  ◌≡◌, Bool, true, false, refl, not, Option, none, some, List, [], ◌∷◌, ◌⊎◌, inl, inr, All,
  if◌then◌else◌, Bool-cases,
}
use dragonfly_operator.Kube.{Pod}
use dragonfly_operator.Election.{
  MasterCandidate, is_better_candidate, improve, pod_of, select_loop, select_master_candidate,
}
use dragonfly_operator.Election.Order.{is_better_candidate_strict, is_better_candidate_neg_trans}

-- No listed candidate is better.
abbrev pub IsBest : MasterCandidate → List MasterCandidate → Type 0
IsBest b = All (λ c. is_better_candidate c b ≡ false)

fold : Option MasterCandidate → List MasterCandidate → Option MasterCandidate
fold best [] = best
fold best (c ∷ cs) = fold (improve c best) cs

-- The outcome of an election among the candidates, from the best so far.
data Outcome (best : MasterCandidate) (cs : List MasterCandidate)
    : Option MasterCandidate → Type 0 where
  kept : IsBest best cs → Outcome best cs (some best)
  found :
      (b : MasterCandidate)
      → Memᴰ b cs
      → IsBest b cs
      → is_better_candidate best b ≡ false
      → Outcome best cs (some b)

Outcome-cons :
    (best c : MasterCandidate) (cs : List MasterCandidate)
    → is_better_candidate c best ≡ false
    → {r : Option MasterCandidate} → Outcome best cs r
    → Outcome best (c ∷ cs) r
Outcome-cons best c cs h (kept k) = kept (h, k)
Outcome-cons best c cs h (found b m k w) =
    found b (Memᴰ.tail m) (is_better_candidate_neg_trans b best c w h, k) w

Outcome-replaced :
    (best c : MasterCandidate) (cs : List MasterCandidate)
    → is_better_candidate c best ≡ true
    → {r : Option MasterCandidate} → Outcome c cs r
    → Outcome best (c ∷ cs) r
Outcome-replaced best c cs h (kept k) =
    found c (Memᴰ.head refl) ((is_better_candidate_strict c c).0, k)
      ((is_better_candidate_strict c best).1 h)
Outcome-replaced best c cs h (found b m k w) =
    found b (Memᴰ.tail m) (w, k)
      (is_better_candidate_neg_trans b c best w ((is_better_candidate_strict c best).1 h))

fold-Outcome :
    (best : MasterCandidate) (cs : List MasterCandidate) → Outcome best cs (fold (some best) cs)
unfolding fold improve
fold-Outcome best [] = kept tt
fold-Outcome best (c ∷ cs) = elim (Bool-cases (is_better_candidate c best)) [
  | inl h ↦ rw h (Outcome-replaced best c cs h (fold-Outcome c cs))
  | inr h ↦ rw h (Outcome-cons best c cs h (fold-Outcome best cs))
]

module _ {S : Type 0} (is_ready : Pod → S → Bool × S)
    (get_candidate : Pod → S → MasterCandidate × S) where
  -- The ready pods' candidates, each asked for right after its pod was found ready.
  unfoldable pub ready_candidates : List Pod → S → List MasterCandidate × S
  ready_candidates [] s = ([], s)
  ready_candidates (p ∷ pods) s =
      let (ready, t) = is_ready p s in
      let (c, u) = get_candidate p t in
      let skipped = ready_candidates pods t in
      let (cs, v) = ready_candidates pods u in if not ready then skipped else (c ∷ cs, v)

  select_loop-fold :
      (pods : List Pod) (best : Option MasterCandidate) (s : S)
      → select_loop is_ready get_candidate pods best s
        ≡ (fold best (ready_candidates pods s).0, (ready_candidates pods s).1)
  unfolding select_loop ready_candidates fold
  select_loop-fold [] best s = refl
  select_loop-fold (p ∷ pods) best s = elim (Bool-cases (is_ready p s).0) [
    | inl h ↦ rw h (select_loop-fold pods _ _)
    | inr h ↦ rw h (select_loop-fold pods _ _)
  ]

  -- What an election among the candidates may answer: nothing if there are none, and otherwise the pod
  -- of a candidate among them that no other one is better than.
  abbrev pub IsElected : List MasterCandidate → Option Pod → Type 0
  IsElected cs r =
      ((cs ≡ []) × (r ≡ none))
      ⊎ ((b : MasterCandidate) × Memᴰ b cs × IsBest b cs × (r ≡ some b.pod))

  fold-IsElected : (cs : List MasterCandidate) → IsElected cs (pod_of (fold none cs))
  unfolding fold improve
  fold-IsElected [] = inl (refl, refl)
  fold-IsElected (c ∷ cs) = go (fold (some c) cs) (fold-Outcome c cs)
    where
      go : (r : Option MasterCandidate) → Outcome c cs r → IsElected (c ∷ cs) (pod_of r)
      go r (kept k) = inr (c, Memᴰ.head refl, ((is_better_candidate_strict c c).0, k), refl)
      go r (found b m k w) = inr (b, Memᴰ.tail m, (w, k), refl)

  -- `selectMasterCandidate` asks the pods in their order, the candidate of a pod only if it is ready,
  -- and answers with nothing exactly if no pod is ready, and otherwise with the pod of a ready
  -- candidate that no other ready candidate is better than.
  pub select_master_candidate-IsElected :
      (pods : List Pod) (s : S)
      → ((select_master_candidate is_ready get_candidate pods s).1 ≡ (ready_candidates pods s).1)
        × IsElected
            (ready_candidates pods s).0
            (select_master_candidate is_ready get_candidate pods s).0
  unfolding select_master_candidate
  select_master_candidate-IsElected pods s =
      rw (select_loop-fold pods none s) (refl, fold-IsElected (ready_candidates pods s).0)
