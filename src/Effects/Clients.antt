-- ===== src/Effects/Clients.antt =====
-- The Redis clients: which are open by a history, and which the instance holds.
use dragonfly_operator.Prelude.{
  ◌≡◌, String, Bool, true, false, not, ◌&&◌, ◌||◌, List, [], ◌∷◌, ◌==◌, arith,
}
use dragonfly_operator.Effects.Calls.{Call, History, Instance, new_client, close_client}
use dragonfly_operator.Effects.Actions.{member, get_redis_client, close_all, close}

abbrev pub opens_or_closes : Call → Bool
opens_or_closes (new_client ip) = true
opens_or_closes (close_client ip) = true
opens_or_closes _ = false

-- Whether a client of the address is open after a call, and after a history.
abbrev pub open_after : String → Call → Bool → Bool
open_after ip (new_client j) before = j == ip || before
open_after ip (close_client j) before = not (j == ip) && before
open_after ip _ before = before

unfoldable pub is_open : String → History → Bool
is_open ip [] = false
is_open ip (call ∷ calls) = open_after ip call (is_open ip calls)

-- The instance holds the clients that are open, and no other.
abbrev pub IsTracked : Instance → Type 0
IsTracked s = (ip : String) → is_open ip s.calls ≡ member ip s.clients

pub is_open-other :
    (ip : String) (call : Call) (calls : History)
    → opens_or_closes call ≡ false
    → is_open ip (call ∷ calls) ≡ is_open ip calls
unfolding is_open
is_open-other ip call calls h = ground arith

pub get_redis_client-IsTracked :
    (pod_ip : String) (s : Instance) → IsTracked s → IsTracked (get_redis_client pod_ip s).1
unfolding get_redis_client is_open
get_redis_client-IsTracked pod_ip s h ip = ground (arith, h ip)

-- Closing all held clients leaves none open.
is_open-close_all :
    (ip : String) (ips : List String) (calls : History)
    → is_open ip (close_all ips calls) ≡ (not (member ip ips) && is_open ip calls)
unfolding close_all is_open
is_open-close_all ip [] calls = ground arith
is_open-close_all ip (j ∷ ips) calls =
    ground (arith, is_open-close_all ip ips (close_client j ∷ calls))

pub close-none_open :
    (s : Instance) → IsTracked s → (ip : String) → is_open ip (close s).calls ≡ false
unfolding close
close-none_open s h ip = ground (arith, is_open-close_all ip s.clients s.calls, h ip)
