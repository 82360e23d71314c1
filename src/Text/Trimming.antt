-- ===== src/Text/Trimming.antt =====
-- Laws of `strings.Trim`.
use text.Mathlib.TextLemmas.{nil-append, cons-append}
use dragonfly_operator.Prelude.{
  ℕ, String, Char, code, ◌<>◌, ◌≡◌, refl, sym, ◌∙◌, ap, Bool, true, false, not, arith, Bool-cases,
  inl, inr,
}
use dragonfly_operator.Text.{trim_left, trim_right, trim}

module _ (cut : ℕ → Bool) where
  -- The first character, if any, is not to be cut.
  abbrev starts_kept : String → Bool
  starts_kept String.[] = true
  starts_kept (String.◌∷◌ c s) = not (cut (code c))

  trim_left-starts_kept : (s : String) → starts_kept (trim_left cut s) ≡ true
  unfolding trim_left
  trim_left-starts_kept String.[] = refl
  trim_left-starts_kept (String.◌∷◌ c s) = ground (arith, trim_left-starts_kept s)

  trim_left_keeps : (s : String) → starts_kept s ≡ true → trim_left cut s ≡ s
  unfolding trim_left
  trim_left_keeps String.[] h = refl
  trim_left_keeps (String.◌∷◌ c s) h = ground arith

  trim_right-starts_kept :
      (s : String) → starts_kept s ≡ true → starts_kept (trim_right cut s) ≡ true
  unfolding trim_right
  trim_right-starts_kept String.[] h = refl
  trim_right-starts_kept (String.◌∷◌ c s) h = ground arith

  trim_right_idem : (s : String) → trim_right cut (trim_right cut s) ≡ trim_right cut s
  unfolding trim_right
  trim_right_idem String.[] = refl
  trim_right_idem (String.◌∷◌ c s) = ground (arith, trim_right_idem s)

  pub trim_idem : (s : String) → trim cut (trim cut s) ≡ trim cut s
  unfolding trim
  trim_idem s =
      let t = trim_left cut s in
      ap (trim_right cut)
        (trim_left_keeps (trim_right cut t) (trim_right-starts_kept t (trim_left-starts_kept s)))
      ∙ trim_right_idem t

  trim_right_last :
      (s : String) (c : Char)
      → cut (code c) ≡ true
      → trim_right cut (s <> String.◌∷◌ c String.[]) ≡ trim_right cut s
  unfolding trim_right
  trim_right_last String.[] c h = rw (nil-append (String.◌∷◌ c String.[])) (ground arith)
  trim_right_last (String.◌∷◌ d s) c h =
      rw (cons-append d s (String.◌∷◌ c String.[])) (ground (arith, trim_right_last s c h))

  trim-last_of_kept :
      (d : Char) (s : String) (c : Char)
      → cut (code c) ≡ true
      → cut (code d) ≡ false
      → trim cut (String.◌∷◌ d s <> String.◌∷◌ c String.[]) ≡ trim_right cut (String.◌∷◌ d s)
  unfolding trim trim_left
  trim-last_of_kept d s c h k =
      ap (λ t. trim_right cut (trim_left cut t)) (cons-append d s (String.◌∷◌ c String.[]))
      ∙ ap (trim_right cut)
          (trim_left_keeps (String.◌∷◌ d (s <> String.◌∷◌ c String.[])) (ap not k))
      ∙ ap (trim_right cut) (sym (cons-append d s (String.◌∷◌ c String.[])))
      ∙ trim_right_last (String.◌∷◌ d s) c h

  trim-last :
      (s : String) (c : Char)
      → cut (code c) ≡ true
      → trim cut (s <> String.◌∷◌ c String.[]) ≡ trim cut s
  unfolding trim trim_left trim_right
  trim-last String.[] c h = rw (nil-append (String.◌∷◌ c String.[]), h) refl
  trim-last (String.◌∷◌ d s) c h = elim (Bool-cases (cut (code d))) [
    | inl k ↦ rw (cons-append d s (String.◌∷◌ c String.[]), k) (trim-last s c h)
    | inr k ↦
        trim-last_of_kept d s c h k
        ∙ sym (ap (trim_right cut) (trim_left_keeps (String.◌∷◌ d s) (ap not k)))
  ]

  -- A character that is cut, on either side, makes no difference.
  pub trim-ends :
      (s : String) (b c : Char)
      → cut (code b) ≡ true
      → cut (code c) ≡ true
      → trim cut (String.◌∷◌ b (s <> String.◌∷◌ c String.[])) ≡ trim cut s
  unfolding trim trim_left
  trim-ends s b c h k = rw h (trim-last s c k)
