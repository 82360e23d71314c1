-- ===== src/Text.antt =====
-- The functions of Go's packages `strings` and `strconv` that the operator calls, on texts. A
-- separator or a cut set is given by character codes.
pub mod Laws
pub mod Trimming
pub mod Decimal
use Prim.Native.String
use dragonfly_operator.Prelude.{
  ℕ, zero, suc, ◌+◌, ◌-◌, ◌*◌, ◌^◌, String, Char, code, Bool, true, false, ◌&&◌, ◌||◌, Option, none,
  some, List, [], ◌∷◌, ltb, leb, nat_eq, if◌then◌else◌,
}
use dragonfly_operator.Prelude.Int.{ℤ, pos, negsuc}

abbrev pub cons_head : Char → List String → List String
cons_head c [] = (String.◌∷◌ c String.[]) ∷ []
cons_head c (x ∷ xs) = (String.◌∷◌ c x) ∷ xs

-- `strings.Split(s, sep)` for a separator of one character.
unfoldable pub split : ℕ → String → List String
split sep String.[] = String.[] ∷ []
split sep (String.◌∷◌ c s) =
    let rest = split sep s in if nat_eq (code c) sep then String.[] ∷ rest else cons_head c rest

-- `strings.SplitN(s, sep, 2)`.
unfoldable pub split_two : ℕ → String → List String
split_two sep String.[] = String.[] ∷ []
split_two sep (String.◌∷◌ c s) =
    let rest = split_two sep s in
    if nat_eq (code c) sep then String.[] ∷ s ∷ [] else cons_head c rest

-- `strings.HasPrefix(s, prefix)`.
unfoldable pub has_prefix : String → String → Bool
has_prefix s String.[] = true
has_prefix String.[] (String.◌∷◌ p ps) = false
has_prefix (String.◌∷◌ c s) (String.◌∷◌ p ps) = nat_eq (code c) (code p) && has_prefix s ps

-- `strings.Contains(s, sub)`.
unfoldable pub contains : String → String → Bool
unfolding has_prefix
contains String.[] sub = has_prefix String.[] sub
contains (String.◌∷◌ c s) sub = has_prefix (String.◌∷◌ c s) sub || contains s sub

-- `strings.TrimPrefix(s, prefix)`.
unfoldable pub trim_prefix : String → String → String
trim_prefix s String.[] = s
trim_prefix String.[] (String.◌∷◌ p ps) = String.[]
trim_prefix (String.◌∷◌ c s) (String.◌∷◌ p ps) =
    let rest = trim_prefix s ps in
    if has_prefix (String.◌∷◌ c s) (String.◌∷◌ p ps) then rest else String.◌∷◌ c s

abbrev pub is_empty : String → Bool
is_empty String.[] = true
is_empty (String.◌∷◌ c s) = false

-- `strings.TrimSuffix(s, "\r")`.
unfoldable pub trim_suffix_cr : String → String
trim_suffix_cr String.[] = String.[]
trim_suffix_cr (String.◌∷◌ c s) =
    let rest = trim_suffix_cr s in
    if is_empty s && nat_eq (code c) 13 then String.[] else String.◌∷◌ c rest

module _ (cut : ℕ → Bool) where
  unfoldable pub trim_left : String → String
  trim_left String.[] = String.[]
  trim_left (String.◌∷◌ c s) =
      let rest = trim_left s in if cut (code c) then rest else String.◌∷◌ c s

  unfoldable pub trim_right : String → String
  trim_right String.[] = String.[]
  trim_right (String.◌∷◌ c s) =
      let rest = trim_right s in
      if cut (code c) && is_empty rest then String.[] else String.◌∷◌ c rest

  -- `strings.Trim(s, cutset)`.
  unfoldable pub trim : String → String
  unfolding trim_left trim_right
  trim s = trim_right (trim_left s)

-- `unicode.IsSpace`.
abbrev pub is_space : ℕ → Bool
is_space c =
    (leb 9 c && leb c 13)
    || nat_eq c 32
    || nat_eq c 0x85
    || nat_eq c 0xa0
    || nat_eq c 0x1680
    || (leb 0x2000 c && leb c 0x200a)
    || nat_eq c 0x2028
    || nat_eq c 0x2029
    || nat_eq c 0x202f
    || nat_eq c 0x205f
    || nat_eq c 0x3000

-- `strings.TrimSpace(s)`.
unfoldable pub trim_space : String → String
unfolding trim
trim_space s = trim is_space s

-- The order `<` of texts: by their first difference.
unfoldable pub text_lt : String → String → Bool
text_lt s String.[] = false
text_lt String.[] (String.◌∷◌ d t) = true
text_lt (String.◌∷◌ c s) (String.◌∷◌ d t) =
    ltb (code c) (code d) || (nat_eq (code c) (code d) && text_lt s t)

abbrev pub is_digit : ℕ → Bool
is_digit c = leb b'0' c && leb c b'9'

-- The value of decimal digits, with the digits before them.
unfoldable pub digits_from : ℕ → String → Option ℕ
digits_from n String.[] = some n
digits_from n (String.◌∷◌ c s) =
    let rest = digits_from (n * 10 + (code c - b'0')) s in if is_digit (code c) then rest else none

unfoldable pub digits : String → Option ℕ
unfolding digits_from
digits String.[] = none
digits (String.◌∷◌ c s) = digits_from 0 (String.◌∷◌ c s)

abbrev pub max_int : ℕ
max_int = 2 ^ 63 - 1

abbrev pub bounded : ℕ → Option ℕ → Option ℕ
bounded top none = none
bounded top (some n) = if leb n top then some n else none

abbrev pub positive : Option ℕ → Option ℤ
positive none = none
positive (some n) = some (pos n)

abbrev negate : ℕ → ℤ
negate n = elim n [ zero ↦ pos 0 | suc k ↦ negsuc k ]

abbrev negative : Option ℕ → Option ℤ
negative none = none
negative (some n) = some (negate n)

-- `strconv.ParseInt(s, 10, 64)`, and `strconv.Atoi(s)`, where `int` has 64 bits; `none` is an error.
unfoldable pub parse_int : String → Option ℤ
unfolding digits
parse_int String.[] = none
parse_int (String.◌∷◌ c s) =
    if nat_eq (code c) b'+'
    then positive (bounded max_int (digits s))
    else if nat_eq (code c) b'-'
    then negative (bounded (max_int + 1) (digits s))
    else positive (bounded max_int (digits (String.◌∷◌ c s)))
