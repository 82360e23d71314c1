-- ===== src/Effects/Changes.antt =====
-- The part of a history that changes something outside: the calls that do more than ask.
use dragonfly_operator.Prelude.{◌≡◌, refl, [], ◌∷◌, if◌then◌else◌, arith, String}
use dragonfly_operator.Effects.Calls.{Call, History, Instance}
use dragonfly_operator.Effects.Within.{only_asks, Grows, grown, more}
use dragonfly_operator.Effects.Actions.{get_redis_client}

abbrev pub change : Call → History → History
change call calls = if only_asks call then calls else call ∷ calls

unfoldable pub changes : History → History
changes [] = []
changes (call ∷ calls) = change call (changes calls)

-- The history when the pod is called.
abbrev pub connected : String → Instance → History
connected ip s = (get_redis_client ip s).1.calls

pub changes-Grows : {h k : History} → Grows only_asks h k → changes k ≡ changes h
unfolding changes
changes-Grows grown = refl
changes-Grows (more call e g) = rw e (changes-Grows g)

pub changes-get_redis_client :
    (ip : String) (s : Instance) → changes (get_redis_client ip s).1.calls ≡ changes s.calls
unfolding get_redis_client changes
changes-get_redis_client ip s = ground arith
