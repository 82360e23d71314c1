-- ===== src/Reconcile/Base/Clients.antt =====
-- The open Redis clients over `getDragonflyInstance` and the deferred `Close`.
use dragonfly_operator.Prelude.{◌≡◌, ◌∙◌, refl, String, Bool, false, []}
use dragonfly_operator.Kube.{Dragonfly}
use dragonfly_operator.Effects.Errors.{Result, ok, err}
use dragonfly_operator.Effects.Calls.{Call, Env, M, History, Instance, get_dragonfly}
use dragonfly_operator.Effects.Clients.{is_open, is_open-other, close-none_open}
use dragonfly_operator.Effects.Within.{Within}
use dragonfly_operator.Instance.Rollout.{Requeue}
use dragonfly_operator.Reconcile.Base.{enter, with_instance}

-- No client of any address is open.
abbrev pub NoneOpen : History → Type 0
NoneOpen calls = (ip : String) → is_open ip calls ≡ false

module _ {p : Call → Bool} (body : M Requeue) (within : Within p body) where
  enter-NoneOpen :
      (calls : History) (found : Result Dragonfly)
      → NoneOpen calls
      → NoneOpen (enter body calls found).1
  unfolding enter
  enter-NoneOpen calls (err e) h = h
  enter-NoneOpen calls (ok df) h =
      let s : Instance = record { df = df; clients = []; calls = calls } in
      close-none_open (body s).1 ((within.at s).tracks h)

  pub with_instance-NoneOpen :
      (env : Env) (namespace name : String) (calls : History)
      → NoneOpen calls
      → NoneOpen (with_instance env namespace name body calls).1
  unfolding with_instance
  with_instance-NoneOpen env namespace name calls h =
      enter-NoneOpen _ _ (λ ip. is_open-other ip (get_dragonfly namespace name) calls refl ∙ h ip)
