-- ===== src/Effects/Scripts.antt =====
-- Sequences of calls that stop at the first one that is refused.
use dragonfly_operator.Prelude.{String, Bool, true, false, ◌&&◌, ◌==◌, List, [], ◌∷◌, if◌then◌else◌}
use dragonfly_operator.Effects.Errors.{Result, ok, err}
use dragonfly_operator.Effects.Calls.{Call, History}

abbrev pub is_ok : Result String → Bool
is_ok (err e) = false
is_ok (ok resp) = resp == "OK"

abbrev pub is_err {ℓ} : {A : Type ℓ} → Result A → Bool
is_err (err e) = true
is_err (ok a) = false

-- The calls in their order, each with whether its answer lets the next one be made.
abbrev pub Script : Type 0
Script = List (Call × Bool)

-- The history after the calls that are made.
abbrev pub made : Script → History → History
made [] calls = calls
made ((call, accepted) ∷ script) calls =
    if accepted then made script (call ∷ calls) else call ∷ calls

abbrev pub all_accepted : Script → Bool
all_accepted [] = true
all_accepted ((call, accepted) ∷ script) = accepted && all_accepted script
