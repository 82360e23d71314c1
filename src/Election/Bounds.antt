-- ===== src/Election/Bounds.antt =====
-- The bounds of `getOrdinal` (internal/controller/util.go).
use dragonfly_operator.Prelude.{
  ℕ, ◌≤◌, String, Char, code, ◌≡◌, refl, true, false, Option, none, some, List, [], ◌∷◌, All, arith,
  nat_eq, ltb, leb, length, Bool-cases, inl, inr,
}
use dragonfly_operator.Prelude.Int.{ℤ, pos}
use dragonfly_operator.Text.{split, cons_head, digits, parse_int, max_int, bounded, positive}
use dragonfly_operator.Text.Laws.{has_char}
use dragonfly_operator.Election.{get_ordinal, last_or, or_max}

-- A number from 0 to the greatest `int`.
abbrev pub IsOrdinal : ℤ → Type 0
IsOrdinal z = (n : ℕ) × (z ≡ pos n) × (n ≤ max_int)

HasOrdinal : Option ℤ → Type 0
HasOrdinal none = Unit
HasOrdinal (some z) = IsOrdinal z

AreClean : ℕ → List String → Type 0
AreClean sep = All (λ (s : String). has_char sep s ≡ false)

cons_head-AreClean :
    (sep : ℕ) (c : Char) (parts : List String)
    → nat_eq (code c) sep ≡ false
    → AreClean sep parts
    → AreClean sep (cons_head c parts)
unfolding AreClean has_char
cons_head-AreClean sep c [] e h = (rw e refl, tt)
cons_head-AreClean sep c (x ∷ xs) e h = (rw (e, h.0) refl, h.1)

-- The parts have no separator.
split-AreClean : (sep : ℕ) (s : String) → AreClean sep (split sep s)
unfolding split AreClean has_char
split-AreClean sep String.[] = (refl, tt)
split-AreClean sep (String.◌∷◌ c s) = elim (Bool-cases (nat_eq (code c) sep)) [
  | inl e ↦ rw e (refl, split-AreClean sep s)
  | inr e ↦ rw e (cons_head-AreClean sep c (split sep s) e (split-AreClean sep s))
]

last_or-clean :
    (sep : ℕ) (d : String) (parts : List String)
    → has_char sep d ≡ false
    → AreClean sep parts
    → has_char sep (last_or d parts) ≡ false
unfolding AreClean
last_or-clean sep d [] e h = e
last_or-clean sep d (x ∷ parts) e h = last_or-clean sep x parts h.0 h.1

positive-HasOrdinal : (o : Option ℕ) → HasOrdinal (positive (bounded max_int o))
unfolding HasOrdinal
positive-HasOrdinal none = tt
positive-HasOrdinal (some n) = elim (Bool-cases (leb n max_int)) [
  | inl e ↦ rw e (n, refl, ground arith)
  | inr e ↦ rw e tt
]

parse_int-HasOrdinal : (s : String) → has_char b'-' s ≡ false → HasOrdinal (parse_int s)
unfolding parse_int has_char HasOrdinal
parse_int-HasOrdinal String.[] h = tt
parse_int-HasOrdinal (String.◌∷◌ c s) h = elim (Bool-cases (nat_eq (code c) b'+')) [
  | inl plus ↦ rw plus (positive-HasOrdinal (digits s))
  | inr digit ↦ elim (Bool-cases (nat_eq (code c) b'-')) [
    | inl minus ↦ let no : true ≡ false = rw minus at h in cc
    | inr fine ↦ rw (digit, fine) (positive-HasOrdinal (digits (String.◌∷◌ c s)))
  ]
]

or_max-IsOrdinal : (found : Option ℤ) → HasOrdinal found → IsOrdinal (or_max found)
unfolding HasOrdinal
or_max-IsOrdinal none h = (max_int, refl, omega arith)
or_max-IsOrdinal (some z) h = h

-- The ordinal of a pod is between 0 and the greatest `int`, whatever its name.
pub get_ordinal-IsOrdinal : (name : String) → IsOrdinal (get_ordinal name)
unfolding get_ordinal has_char
get_ordinal-IsOrdinal name = elim (Bool-cases (ltb (length (split b'-' name)) 2)) [
  | inl e ↦ rw e (max_int, refl, omega arith)
  | inr e ↦ rw e (
      or_max-IsOrdinal _ (
        parse_int-HasOrdinal (last_or "" (split b'-' name))
          (last_or-clean b'-' "" (split b'-' name) refl (split-AreClean b'-' name))))
]
