-- ===== src/Text/Decimal.antt =====
-- `fmt.Sprintf("%d", n)`.
use text.Mathlib.TextLemmas.{nil-append, cons-append}
use dragonfly_operator.Prelude.{
  ℕ, zero, suc, ◌+◌, ◌*◌, ◌/◌, ◌%◌, ◌^◌, ◌<◌, ◌≤◌, ◌≡◌, refl, ap, ◌∙◌, String, ◌<>◌, Char, code,
  true, some, List, [], ◌∷◌, arith,
}
use dragonfly_operator.Prelude.Int.{ℤ, pos, negsuc}
use dragonfly_operator.Text.{digits, digits_from, is_digit, parse_int, max_int}
use dragonfly_operator.Text.Laws.{parse_int-digits}

abbrev nth : ℕ → List Char → Char
nth n [] = "9"
nth zero (c ∷ cs) = c
nth (suc n) (c ∷ cs) = nth n cs

abbrev digit : ℕ → Char
digit n = nth n ("0" ∷ "1" ∷ "2" ∷ "3" ∷ "4" ∷ "5" ∷ "6" ∷ "7" ∷ "8" ∷ [])

-- The digits of a number in front of a text, the last ones first.
unfoldable pub put_digits : ℕ → ℕ → String → String
put_digits zero n s = s
put_digits (suc fuel) n s = elim (n / 10) [
  | zero ↦ String.◌∷◌ (digit (n % 10)) s
  | suc m ↦ put_digits fuel (suc m) (String.◌∷◌ (digit (n % 10)) s)
]

-- 64-bit integers have at most 20 digits.
unfoldable pub decimal : ℕ → String
unfolding put_digits
decimal n = put_digits 20 n String.[]

unfoldable pub decimal_ℤ : ℤ → String
unfolding decimal
decimal_ℤ (pos n) = decimal n
decimal_ℤ (negsuc n) = "-" <> decimal (suc n)

code-digit : (n : ℕ) → n < 10 → code (digit n) ≡ n + b'0'
code-digit zero h = refl
code-digit (suc zero) h = refl
code-digit (suc (suc zero)) h = refl
code-digit (suc (suc (suc zero))) h = refl
code-digit (suc (suc (suc (suc zero)))) h = refl
code-digit (suc (suc (suc (suc (suc zero))))) h = refl
code-digit (suc (suc (suc (suc (suc (suc zero)))))) h = refl
code-digit (suc (suc (suc (suc (suc (suc (suc zero))))))) h = refl
code-digit (suc (suc (suc (suc (suc (suc (suc (suc zero)))))))) h = refl
code-digit (suc (suc (suc (suc (suc (suc (suc (suc (suc zero))))))))) h = refl
code-digit (suc (suc (suc (suc (suc (suc (suc (suc (suc (suc n)))))))))) h = omega arith

digit-is_digit : (d : ℕ) → d < 10 → is_digit (d + b'0') ≡ true
digit-is_digit d h = ground arith

digits_from-digit :
    (m d n : ℕ) (s : String)
    → d < 10
    → m * 10 + d ≡ n
    → digits_from m (String.◌∷◌ (digit d) s) ≡ digits_from n s
unfolding digits_from
digits_from-digit m d n s h e =
    rw (code-digit d h, digit-is_digit d h) (ap (λ k. digits_from k s) (omega arith))

module _ (fuel : ℕ)
    (shorter : (n : ℕ) (s : String)
      → n < 10 ^ fuel
      → digits_from 0 (put_digits fuel n s) ≡ digits_from n s) where
  put_digits-by_quotient :
      (n q : ℕ) (s : String)
      → n / 10 ≡ q
      → n < 10 ^ suc fuel
      → digits_from 0 (elim q [
        | zero ↦ String.◌∷◌ (digit (n % 10)) s
        | suc m ↦ put_digits fuel (suc m) (String.◌∷◌ (digit (n % 10)) s)
      ])
        ≡ digits_from n s
  put_digits-by_quotient n zero s e h = digits_from-digit 0 (n % 10) n s (omega arith) (omega arith)
  put_digits-by_quotient n (suc m) s e h =
      shorter (suc m) _ (omega arith)
      ∙ digits_from-digit (suc m) (n % 10) n s (omega arith) (omega arith)

put_digits-digits_from :
    (fuel n : ℕ) (s : String)
    → n < 10 ^ fuel
    → digits_from 0 (put_digits fuel n s) ≡ digits_from n s
unfolding put_digits
put_digits-digits_from zero n s h = ap (λ m. digits_from m s) (omega arith)
put_digits-digits_from (suc fuel) n s h =
    put_digits-by_quotient fuel (put_digits-digits_from fuel) n (n / 10) s refl h

zero_lem : digits (put_digits 20 0 String.[]) ≡ some 0
unfolding put_digits digits
zero_lem = refl

empty : (n : ℕ) → digits_from n String.[] ≡ some n
unfolding digits_from
empty n = refl

digits-nonzero : (s : String) (n : ℕ) → digits_from 0 s ≡ some (suc n) → digits s ≡ some (suc n)
unfolding digits digits_from
digits-nonzero String.[] n h = ground arith
digits-nonzero (String.◌∷◌ c s) n h = h

-- The decimal digits of a number below 10 ^ 20, which every 64-bit integer is, are read back as that
-- number.
pub digits-decimal : (n : ℕ) → n < 10 ^ 20 → digits (decimal n) ≡ some n
unfolding decimal
digits-decimal zero h = zero_lem
digits-decimal (suc n) h =
    digits-nonzero _ n (put_digits-digits_from 20 (suc n) String.[] h ∙ empty (suc n))

-- A 64-bit integer; `negsuc n` is -(n + 1).
abbrev pub IsInt64 : ℤ → Type 0
IsInt64 (pos n) = n ≤ max_int
IsInt64 (negsuc n) = n ≤ max_int

parse_int-minus :
    (s : String) (n : ℕ)
    → digits s ≡ some (suc n)
    → n ≤ max_int
    → parse_int (String.◌∷◌ "-" s) ≡ some (negsuc n)
unfolding parse_int
parse_int-minus s n e h = rw e ground arith

minus-append : (s : String) → "-" <> s ≡ String.◌∷◌ "-" s
minus-append s = cons-append "-" String.[] s ∙ ap (String.◌∷◌ "-") (nil-append s)

-- A 64-bit integer, such as a port in the arguments of Dragonfly, is printed as a text that
-- `strconv.ParseInt` reads back as that integer.
pub parse_int-decimal_ℤ : (z : ℤ) → IsInt64 z → parse_int (decimal_ℤ z) ≡ some z
unfolding decimal_ℤ
parse_int-decimal_ℤ (pos n) h = parse_int-digits (decimal n) n (digits-decimal n (omega arith)) h
parse_int-decimal_ℤ (negsuc n) h =
    rw (minus-append (decimal (suc n)))
      (parse_int-minus (decimal (suc n)) n (digits-decimal (suc n) (omega arith)) h)
