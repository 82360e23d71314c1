-- ===== src/Instance/Rollout/Sorting.antt =====
-- Pods sorted by name, as `sort.Slice` leaves them.
use mathlib.Core.List.{Memᴰ}
use dragonfly_operator.Prelude.{
  ◌≡◌, refl, String, Bool, true, false, List, [], ◌∷◌, arith, if◌then◌else◌, All, Bool-cases, ◌⊎◌,
  inl, inr,
}
use dragonfly_operator.Text.{text_lt}
use dragonfly_operator.Kube.{Pod}
use dragonfly_operator.Pods.{has_outdated}
use dragonfly_operator.Instance.Rollout.{has_terminating, insert_by_name, sort_by_name}

text_lt-neg_trans :
    (s t u : String) → text_lt t s ≡ false → text_lt u t ≡ false → text_lt u s ≡ false
unfolding text_lt
text_lt-neg_trans String.[] t u h k = refl
text_lt-neg_trans (String.◌∷◌ d s) String.[] u h k = cc
text_lt-neg_trans (String.◌∷◌ d s) (String.◌∷◌ c t) String.[] h k = cc
text_lt-neg_trans (String.◌∷◌ d s) (String.◌∷◌ c t) (String.◌∷◌ b u) h k =
    ground (arith, text_lt-neg_trans s t u)

text_lt-asym : (s t : String) → text_lt s t ≡ true → text_lt t s ≡ false
unfolding text_lt
text_lt-asym s String.[] h = cc
text_lt-asym String.[] (String.◌∷◌ d t) h = refl
text_lt-asym (String.◌∷◌ c s) (String.◌∷◌ d t) h = ground (arith, text_lt-asym s t)

-- No pod of the list has a smaller name.
abbrev pub IsFirst : Pod → List Pod → Type 0
IsFirst p = All (λ q. text_lt q.name p.name ≡ false)

abbrev pub IsSorted : List Pod → Type 0
IsSorted [] = Unit
IsSorted (p ∷ pods) = IsFirst p pods × IsSorted pods

All-inserted :
    (P : Pod → Type 0) (pod : Pod) (pods : List Pod)
    → P pod
    → All P pods
    → All P (insert_by_name pod pods)
unfolding insert_by_name
All-inserted P pod [] h hs = (h, hs)
All-inserted P pod (p ∷ pods) h (k, ks) = elim (Bool-cases (text_lt p.name pod.name)) [
  | inl e ↦ rw e (k, All-inserted P pod pods h ks)
  | inr e ↦ rw e (h, (k, ks))
]

IsFirst-trans :
    (p q : Pod) (pods : List Pod) → text_lt q.name p.name ≡ false → IsFirst q pods → IsFirst p pods
IsFirst-trans p q [] h hs = tt
IsFirst-trans p q (r ∷ pods) h (k, ks) =
    (text_lt-neg_trans p.name q.name r.name h k, IsFirst-trans p q pods h ks)

insert_by_name-IsSorted :
    (pod : Pod) (pods : List Pod) → IsSorted pods → IsSorted (insert_by_name pod pods)
unfolding insert_by_name
insert_by_name-IsSorted pod [] h = (tt, tt)
insert_by_name-IsSorted pod (p ∷ pods) (k, ks) = elim (Bool-cases (text_lt p.name pod.name)) [
  | inl e ↦ rw e (
    All-inserted (λ q. text_lt q.name p.name ≡ false) pod pods (text_lt-asym p.name pod.name e) k,
    insert_by_name-IsSorted pod pods ks,
  )
  | inr e ↦ rw e ((e, IsFirst-trans pod p pods e k), (k, ks))
]

pub sort_by_name-IsSorted : (pods : List Pod) → IsSorted (sort_by_name pods)
unfolding sort_by_name
sort_by_name-IsSorted [] = tt
sort_by_name-IsSorted (pod ∷ pods) =
    insert_by_name-IsSorted pod (sort_by_name pods) (sort_by_name-IsSorted pods)

pub text_lt_irrefl : (s : String) → text_lt s s ≡ false
unfolding text_lt
text_lt_irrefl String.[] = refl
text_lt_irrefl (String.◌∷◌ c s) = ground (arith, text_lt_irrefl s)

has_terminating-insert_by_name :
    (pod : Pod) (pods : List Pod)
    → has_terminating (insert_by_name pod pods) ≡ has_terminating (pod ∷ pods)
unfolding insert_by_name has_terminating
has_terminating-insert_by_name pod [] = refl
has_terminating-insert_by_name pod (p ∷ pods) =
    ground (arith, has_terminating-insert_by_name pod pods)

pub has_terminating-sort_by_name :
    (pods : List Pod) → has_terminating (sort_by_name pods) ≡ has_terminating pods
unfolding sort_by_name has_terminating
has_terminating-sort_by_name [] = refl
has_terminating-sort_by_name (pod ∷ pods) = ground (
  arith,
  has_terminating-insert_by_name pod (sort_by_name pods),
  has_terminating-sort_by_name pods,
)

has_outdated-insert_by_name :
    (pod : Pod) (pods : List Pod) (revision : String)
    → has_outdated (insert_by_name pod pods) revision ≡ has_outdated (pod ∷ pods) revision
unfolding insert_by_name has_outdated
has_outdated-insert_by_name pod [] revision = refl
has_outdated-insert_by_name pod (p ∷ pods) revision =
    ground (arith, has_outdated-insert_by_name pod pods revision)

pub has_outdated-sort_by_name :
    (pods : List Pod) (revision : String)
    → has_outdated (sort_by_name pods) revision ≡ has_outdated pods revision
unfolding sort_by_name has_outdated
has_outdated-sort_by_name [] revision = refl
has_outdated-sort_by_name (pod ∷ pods) revision = ground (
  arith,
  has_outdated-insert_by_name pod (sort_by_name pods) revision,
  has_outdated-sort_by_name pods revision,
)

Memᴰ-if :
    {x : Pod} (b : Bool) (xs ys : List Pod) → Memᴰ x (if b then xs else ys) → Memᴰ x xs ⊎ Memᴰ x ys
Memᴰ-if true xs ys m = inl m
Memᴰ-if false xs ys m = inr m

Memᴰ-under :
    {x : Pod} (a : Pod) (xs ys : List Pod)
    → (Memᴰ x xs → Memᴰ x ys)
    → Memᴰ x (a ∷ xs)
    → Memᴰ x (a ∷ ys)
Memᴰ-under a xs ys f (Memᴰ.head e) = Memᴰ.head e
Memᴰ-under a xs ys f (Memᴰ.tail m) = Memᴰ.tail (f m)

Memᴰ-swap : {x : Pod} (a b : Pod) (xs : List Pod) → Memᴰ x (a ∷ b ∷ xs) → Memᴰ x (b ∷ a ∷ xs)
Memᴰ-swap a b xs (Memᴰ.head e) = Memᴰ.tail (Memᴰ.head e)
Memᴰ-swap a b xs (Memᴰ.tail (Memᴰ.head e)) = Memᴰ.head e
Memᴰ-swap a b xs (Memᴰ.tail (Memᴰ.tail m)) = Memᴰ.tail (Memᴰ.tail m)

insert_by_name-Memᴰ :
    {x : Pod} (pod : Pod) (pods : List Pod) → Memᴰ x (insert_by_name pod pods) → Memᴰ x (pod ∷ pods)
unfolding insert_by_name
insert_by_name-Memᴰ pod [] m = m
insert_by_name-Memᴰ pod (p ∷ pods) m =
    elim (Memᴰ-if (text_lt p.name pod.name) (p ∷ insert_by_name pod pods) (pod ∷ p ∷ pods) m) [
      | inl n ↦
          Memᴰ-swap p pod pods
            (Memᴰ-under p (insert_by_name pod pods) (pod ∷ pods) (insert_by_name-Memᴰ pod pods) n)
      | inr n ↦ n
    ]

pub sort_by_name-Memᴰ : {x : Pod} (pods : List Pod) → Memᴰ x (sort_by_name pods) → Memᴰ x pods
unfolding sort_by_name
sort_by_name-Memᴰ [] m = m
sort_by_name-Memᴰ (pod ∷ pods) m =
    Memᴰ-under pod (sort_by_name pods) pods (sort_by_name-Memᴰ pods)
      (insert_by_name-Memᴰ pod (sort_by_name pods) m)
