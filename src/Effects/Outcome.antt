-- ===== src/Effects/Outcome.antt =====
-- What a block that answers with a result says of its parts.
use dragonfly_operator.Prelude.{◌≡◌, refl, arith}
use dragonfly_operator.Effects.Errors.{Err, Result, ok, err}
use dragonfly_operator.Effects.Calls.{M, Instance, ◌>>=◌, proceed, pure, fail, rewrapping}

module _ {ℓ κ} {A : Type ℓ} {B : Type κ} where
  proceed_ok :
      (r : Result A) (f : A → M B) (t : Instance) (b : B)
      → (proceed r f t).0 ≡ ok b
      → (a : A) × (r ≡ ok a) × ((f a t).0 ≡ ok b)
  proceed_ok (ok a) f t b e = (a, refl, e)
  proceed_ok (err x) f t b e = cc

  pub bind_ok :
      (m : M A) (f : A → M B) (s : Instance) (b : B)
      → ((m >>= f) s).0 ≡ ok b
      → (a : A) × ((m s).0 ≡ ok a) × ((f a (m s).1).0 ≡ ok b)
  unfolding ◌>>=◌
  bind_ok m f s b e = proceed_ok (m s).0 f (m s).1 b e

pub bind_run {ℓ κ} :
    {A : Type ℓ} {B : Type κ} (m : M A) (f : A → M B) (s : Instance) (a : A)
    → (m s).0 ≡ ok a
    → (m >>= f) s ≡ f a (m s).1
unfolding ◌>>=◌
bind_run m f s a e = rw e refl

pub rewrapping_ok {ℓ} :
    {A : Type ℓ} (change : Err → Err) (m : M A) (s : Instance) (a : A)
    → (rewrapping change m s).0 ≡ ok a
    → (m s).0 ≡ ok a
unfolding rewrapping
rewrapping_ok change m s a e = ground arith

pub pure_ok {ℓ} : {A : Type ℓ} (a b : A) (s : Instance) → (pure a s).0 ≡ ok b → a ≡ b
unfolding pure
pure_ok a b s e = cc

pub fail_ok {ℓ} : {A : Type ℓ} (e : Err) (b : A) (s : Instance) → ¬ ((fail e s).0 ≡ ok b)
unfolding fail
fail_ok e b s h = cc

pub rewrapping_run {ℓ} :
    {A : Type ℓ} (change : Err → Err) (m : M A) (s : Instance) (a : A)
    → (m s).0 ≡ ok a
    → (rewrapping change m s).0 ≡ ok a
unfolding rewrapping
rewrapping_run change m s a e = rw e refl

pub bind_err {ℓ κ} :
    {A : Type ℓ} {B : Type κ} (m : M A) (f : A → M B) (s : Instance) (e : Err)
    → (m s).0 ≡ err e
    → (m >>= f) s ≡ (err e, (m s).1)
unfolding ◌>>=◌
bind_err m f s e h = rw h refl

pub rewrapping_err {ℓ} :
    {A : Type ℓ} (change : Err → Err) (m : M A) (s : Instance) (e : Err)
    → (m s).0 ≡ err e
    → rewrapping change m s ≡ (err (change e), (m s).1)
unfolding rewrapping
rewrapping_err change m s e h = rw h refl
