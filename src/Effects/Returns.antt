-- ===== src/Effects/Returns.antt =====
-- Actions that succeed with a known result, leave the custom resource as it is, and make only calls that
-- pass a test.
use dragonfly_operator.Prelude.{◌≡◌, refl, ap, ◌∙◌, String, Bool, true, arith}
use dragonfly_operator.Effects.Errors.{Err, Result, ok}
use dragonfly_operator.Effects.Calls.{
  Call, History, M, Instance, pure, attempt, rewrapping, perform, gets, ◌>>=◌,
}
use dragonfly_operator.Effects.Actions.{get_df, get_redis_client}
use dragonfly_operator.Kube.{Dragonfly}
use dragonfly_operator.Effects.Within.{
  Grows, grown, more, Grows-trans, PermitsAsking, get_redis_client-Within,
}
use dragonfly_operator.Effects.Outcome.{bind_run, rewrapping_run}

pub record Returns {ℓ} {A : Type ℓ} (p : Call → Bool) (m : M A) (s : Instance) (a : A)
    : Type ℓ where
  pub ended : (m s).0 ≡ ok a
  pub df : (m s).1.df ≡ s.df
  pub grows : Grows p s.calls (m s).1.calls

module _ {ℓ} {A : Type ℓ} {p : Call → Bool} where
  pub Returns-pure : (a : A) (s : Instance) → Returns p (pure a) s a
  unfolding pure
  Returns-pure a s = record { ended = refl; df = refl; grows = grown }

  pub Returns-gets : (f : Instance → A) (s : Instance) → Returns p (gets f) s (f s)
  unfolding gets
  Returns-gets f s = record { ended = refl; df = refl; grows = grown }

  pub Returns-perform :
      (call : Call) (answer : History → Result A) (s : Instance) {a : A}
      → p call ≡ true
      → answer s.calls ≡ ok a
      → Returns p (perform call answer) s a
  unfolding perform
  Returns-perform call answer s e h = record { ended = h; df = refl; grows = more call e grown }

  pub Returns-rewrapping :
      (change : Err → Err) {m : M A} {s : Instance} {a : A}
      → Returns p m s a
      → Returns p (rewrapping change m) s a
  unfolding rewrapping
  Returns-rewrapping change {m} {s} {a} r = record {
    ended = rewrapping_run change m s a r.ended;
    df = r.df;
    grows = r.grows;
  }

  -- The result as a value.
  pub Returns-attempt :
      {m : M A} {s : Instance} {a : A} → Returns p m s a → Returns p (attempt m) s (ok a)
  unfolding attempt
  Returns-attempt r = record { ended = ap ok r.ended; df = r.df; grows = r.grows }

module _ {ℓ κ} {A : Type ℓ} {B : Type κ} {p : Call → Bool} where
  -- The rest of a block from the instance that the first action leaves.
  pub Returns-next :
      (m : M A) (f : A → M B) {s : Instance} {a : A} {b : B}
      → Returns p m s a
      → Returns p (f a) (m s).1 b
      → Returns p (m >>= f) s b
  Returns-next m f {s} {a} first later =
      let run = bind_run m f s a first.ended in
      record {
        ended = rw run later.ended;
        df = rw run (later.df ∙ first.df);
        grows = rw run (Grows-trans first.grows later.grows);
      }

  pub Returns-bind :
      (m : M A) (f : A → M B) {s : Instance} {a : A} {b : B}
      → Returns p m s a
      → ((t : Instance) → t.df ≡ s.df → Returns p (f a) t b)
      → Returns p (m >>= f) s b
  Returns-bind m f {s} first rest = Returns-next m f first (rest (m s).1 first.df)

module _ {p : Call → Bool} (asks : PermitsAsking p) where
  pub Returns-get_redis_client : (ip : String) (s : Instance) → Returns p (get_redis_client ip) s ip
  unfolding get_redis_client
  Returns-get_redis_client ip s = record {
    ended = ground arith;
    df = ground arith;
    grows = ((get_redis_client-Within asks ip).at s).grows;
  }

module _ {ℓ} {B : Type ℓ} {p : Call → Bool} where
  pub Returns-get_df :
      (f : Dragonfly → M B) {s : Instance} {b : B}
      → Returns p (f s.df) s b
      → Returns p (get_df >>= f) s b
  unfolding gets
  Returns-get_df f {s} r = Returns-next get_df f (Returns-gets (λ (t : Instance). t.df) s) r
