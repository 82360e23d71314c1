-- ===== src/Election/Ordinal.antt =====
-- `getOrdinal` on the name of a pod of a stateful set.
use text.Mathlib.TextLemmas.{nil-append, cons-append}
use dragonfly_operator.Prelude.{
  ℕ, ◌≤◌, String, ◌<>◌, ◌≡◌, refl, ◌∙◌, ap, false, List, [], ◌∷◌, ◌++◌, some, length, length-append,
  ltb, arith,
}
use dragonfly_operator.Prelude.Int.{pos}
use dragonfly_operator.Text.{split, digits, parse_int, max_int}
use dragonfly_operator.Text.Laws.{
  has_char, split-no_separator, split-separator, digits_from-no_minus, parse_int-digits,
}
use dragonfly_operator.Election.{get_ordinal, last_or, or_max}

last_or-append : (d s : String) (p : List String) → last_or d (p ++ (s ∷ [])) ≡ s
last_or-append d s [] = refl
last_or-append d s (x ∷ p) = last_or-append x s p

length-two : (x s : String) (p : List String) → ltb (length (x ∷ p ++ (s ∷ []))) 2 ≡ false
length-two x s p = ground (arith, length-append p (s ∷ []))

digits-no_minus : (s : String) (n : ℕ) → digits s ≡ some n → has_char b'-' s ≡ false
unfolding digits has_char
digits-no_minus String.[] n h = refl
digits-no_minus (String.◌∷◌ c s) n h = digits_from-no_minus 0 n (String.◌∷◌ c s) h

get_ordinal_of :
    (name s p : String) (ps : List String)
    → split b'-' name ≡ p ∷ ps ++ (s ∷ [])
    → get_ordinal name ≡ or_max (parse_int s)
unfolding get_ordinal
get_ordinal_of name s p ps e = rw (e, length-two p s ps, last_or-append p s ps) refl

-- The ordinal of a pod whose name is that of its stateful set, a dash and decimal digits is the number
-- that the digits stand for, if it is a 64-bit integer; the name may have dashes of its own.
pub get_ordinal-digits :
    (name ordinal : String) (n : ℕ)
    → digits ordinal ≡ some n
    → n ≤ max_int
    → get_ordinal (name <> ("-" <> ordinal)) ≡ pos n
get_ordinal-digits name ordinal n h le =
    let (p, ps, e) = split-separator b'-' name "-" ordinal refl in
    let whole = ap (λ t. split b'-' (name <> t)) (dash-append ordinal) in
    let last =
      ap (λ l. p ∷ ps ++ l) (split-no_separator b'-' ordinal (digits-no_minus ordinal n h)) in
    get_ordinal_of _ ordinal p ps (whole ∙ e ∙ last) ∙ ap or_max (parse_int-digits ordinal n h le)
  where
    dash-append : (t : String) → "-" <> t ≡ String.◌∷◌ "-" t
    dash-append t = cons-append "-" String.[] t ∙ ap (String.◌∷◌ "-") (nil-append t)
