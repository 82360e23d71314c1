-- ===== src/Instance/Roles/Disconnect.antt =====
-- Which clients `disconnectClients` kills.
use dragonfly_operator.Prelude.{
  ◌≡◌, refl, ap, ◌∙◌, sym, String, Bool, true, Option, none, some, List, [], ◌∷◌, ◌++◌,
  append_assoc, append-nil, arith,
}
use dragonfly_operator.Text.{split}
use dragonfly_operator.Effects.Errors.{Result, ok, err}
use dragonfly_operator.Effects.Calls.{Env, History, Instance, ◌>>=◌, pure, client_kill}
use dragonfly_operator.Effects.Changes.{changes}
use dragonfly_operator.Effects.Outcome.{bind_run}
use dragonfly_operator.Instance.Roles.{
  is_spared, victim, kill_victim, kill_clients, kill_listed, disconnect_clients,
}

abbrev kill_one : String → Option String → History
kill_one c none = []
kill_one c (some addr) = client_kill c addr ∷ []

-- The calls that kill the victims among the lines, the last one first.
unfoldable pub kills : String → List String → History
kills c [] = []
kills c (line ∷ lines) = kills c lines ++ kill_one c (victim line)

abbrev pub kills_listed : String → Result String → History
kills_listed c (err e) = []
kills_listed c (ok lines) = kills c (split b'\n' lines)

kills_spared :
    (c line : String) (lines : List String)
    → is_spared line ≡ true
    → kills c (line ∷ lines) ≡ kills c lines
unfolding kills victim
kills_spared c line lines h = ground (arith, append-nil (kills c lines))

module _ (env : Env) (is_ipv4 : String → Bool) where
  kill_victim_lem :
      (c : String) (addr : Option String) (s : Instance)
      → ((kill_victim env is_ipv4 c addr s).0 ≡ ok tt)
        × (changes (kill_victim env is_ipv4 c addr s).1.calls ≡ kill_one c addr ++ changes s.calls)
  unfolding ◌>>=◌ changes
  kill_victim_lem c none s = (refl, refl)
  kill_victim_lem c (some addr) s = (refl, refl)

  kill_clients_lem :
      (c : String) (lines : List String) (s : Instance)
      → ((kill_clients env is_ipv4 c lines s).0 ≡ ok tt)
        × (changes (kill_clients env is_ipv4 c lines s).1.calls ≡ kills c lines ++ changes s.calls)
  unfolding kill_clients kills pure
  kill_clients_lem c [] s = (refl, refl)
  kill_clients_lem c (line ∷ lines) s =
      let kill = kill_victim env is_ipv4 c (victim line) in
      let (a, b) = kill_victim_lem c (victim line) s in
      let (d, e) = kill_clients_lem c lines (kill s).1 in
      rw (bind_run kill (λ _. kill_clients env is_ipv4 c lines) s tt a) (
        d,
        e
            ∙ ap (λ calls. kills c lines ++ calls) b
            ∙ sym (append_assoc (kills c lines) (kill_one c (victim line)) (changes s.calls)),
      )

  kill_listed_lem :
      (c : String) (listed : Result String) (s : Instance)
      → ((kill_listed env is_ipv4 c listed s).0 ≡ ok tt)
        × (changes (kill_listed env is_ipv4 c listed s).1.calls
            ≡ kills_listed c listed ++ changes s.calls)
  unfolding pure
  kill_listed_lem c (err e) s = (refl, refl)
  kill_listed_lem c (ok lines) s = kill_clients_lem c (split b'\n' lines) s

  -- Disconnecting the clients of a pod never fails, and makes no change but to kill, for each line of
  -- `CLIENT LIST` that is not one of a local, a replication or an operator's connection, the client at
  -- the address in it, in the order of the lines; where `CLIENT LIST` fails nothing is killed, and where
  -- a kill fails the others are still tried. A line of such a connection adds no kill.
  pub disconnect_clients_lem :
      (c : String) (s : Instance)
      → ((disconnect_clients env is_ipv4 c s).0 ≡ ok tt)
        × (changes (disconnect_clients env is_ipv4 c s).1.calls
            ≡ kills_listed c (env.client_list s.calls c) ++ changes s.calls)
        × ((line : String) (lines : List String)
            → is_spared line ≡ true
            → kills c (line ∷ lines) ≡ kills c lines)
  unfolding disconnect_clients ◌>>=◌ changes
  disconnect_clients_lem c s =
      let (never_fails, killed) = kill_listed_lem c (env.client_list s.calls c) _ in
      (never_fails, killed, kills_spared c)
