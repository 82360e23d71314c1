-- ===== src/Text/Laws.antt =====
-- Laws of the text functions: splitting, and reading numbers.
use text.Mathlib.TextLemmas.{nil-append, cons-append}
use dragonfly_operator.Prelude.{
  ℕ, ◌+◌, ◌*◌, ◌-◌, ◌≤◌, String, Char, code, ◌≡◌, refl, ◌∙◌, ap, Bool, true, false, ◌||◌, arith,
  nat_eq, some, List, [], ◌∷◌, ◌++◌, ◌<>◌, Bool-cases, inl, inr,
}
use dragonfly_operator.Prelude.Int.{pos}
use dragonfly_operator.Text.{split, digits_from, digits, parse_int, max_int}

-- Whether a character of the code occurs.
unfoldable pub has_char : ℕ → String → Bool
has_char k String.[] = false
has_char k (String.◌∷◌ c s) = nat_eq (code c) k || has_char k s

pub split-no_separator : (sep : ℕ) (s : String) → has_char sep s ≡ false → split sep s ≡ s ∷ []
unfolding split has_char
split-no_separator sep String.[] h = refl
split-no_separator sep (String.◌∷◌ c s) h = ground (arith, split-no_separator sep s)

split-at :
    (sep : ℕ) (c : Char) (t : String)
    → code c ≡ sep
    → split sep (String.◌∷◌ c t) ≡ String.[] ∷ split sep t
unfolding split
split-at sep c t h = ground arith

split-before :
    (sep : ℕ) (d : Char) (s p : String) (ps : List String)
    → nat_eq (code d) sep ≡ false
    → split sep s ≡ p ∷ ps
    → split sep (String.◌∷◌ d s) ≡ String.◌∷◌ d p ∷ ps
unfolding split
split-before sep d s p ps h e = ground arith

-- The parts of a text after a separator are the last parts of the whole, and there is one before them.
pub split-separator :
    (sep : ℕ) (s : String) (c : Char) (t : String)
    → code c ≡ sep
    → (p : String) × (ps : List String) × (split sep (s <> String.◌∷◌ c t) ≡ p ∷ ps ++ split sep t)
split-separator sep String.[] c t h =
    (String.[], [], ap (split sep) (nil-append (String.◌∷◌ c t)) ∙ split-at sep c t h)
split-separator sep (String.◌∷◌ d s) c t h =
    let (p, ps, e) = split-separator sep s c t h in
    let whole = ap (split sep) (cons-append d s (String.◌∷◌ c t)) in
    elim (Bool-cases (nat_eq (code d) sep)) [
      | inl f ↦
          (String.[], p ∷ ps, whole ∙ split-at sep d _ (nat_eq→eq f) ∙ ap (λ l. String.[] ∷ l) e)
      | inr f ↦ (String.◌∷◌ d p, ps, whole ∙ split-before sep d _ p _ f e)
    ]
  where
    nat_eq→eq : {a b : ℕ} → nat_eq a b ≡ true → a ≡ b
    nat_eq→eq k = ground arith

pub digits_from-no_minus :
    (n m : ℕ) (s : String) → digits_from n s ≡ some m → has_char b'-' s ≡ false
unfolding digits_from has_char
digits_from-no_minus n m String.[] h = refl
digits_from-no_minus n m (String.◌∷◌ c s) h =
    ground (arith, digits_from-no_minus (n * 10 + (code c - b'0')) m s)

pub parse_int-digits :
    (s : String) (n : ℕ) → digits s ≡ some n → n ≤ max_int → parse_int s ≡ some (pos n)
unfolding digits digits_from parse_int
parse_int-digits String.[] n h le = cc
parse_int-digits (String.◌∷◌ c s) n h le = ground arith
