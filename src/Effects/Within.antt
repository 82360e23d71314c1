-- ===== src/Effects/Within.antt =====
-- Footprints: which calls an action may add to the history, whatever the outside answers, and that it
-- keeps track of the Redis clients. One rule for each way to build an action.
use dragonfly_operator.Prelude.{
  ◌≡◌, ◌∙◌, refl, Bool, true, false, List, [], ◌∷◌, String, Bool-cases, inl, inr, if◌then◌else◌,
  arith,
}
use dragonfly_operator.Kube.{Dragonfly}
use dragonfly_operator.Effects.Errors.{Err, Result, ok, err}
use dragonfly_operator.Effects.Calls.{
  Call, History, M, Instance, pure, fail, attempt, rewrapping, perform, gets, set_df, ◌>>=◌,
  proceed, new_client, close_client, delete_pod, patch_pod, patch_pod_status,
  patch_dragonfly_status, record_event, create_object, patch_object, delete_budget, slave_of,
  config_set, repl_takeover, client_kill,
}
use dragonfly_operator.Effects.Clients.{
  IsTracked, opens_or_closes, is_open-other, get_redis_client-IsTracked,
}
use dragonfly_operator.Effects.Actions.{get_redis_client, member, close_all}

-- Calls that change nothing outside.
abbrev pub only_asks : Call → Bool
only_asks (patch_pod before after) = false
only_asks (patch_pod_status before after) = false
only_asks (delete_pod pod) = false
only_asks (patch_dragonfly_status before after) = false
only_asks (record_event reason message) = false
only_asks (create_object object) = false
only_asks (patch_object before after) = false
only_asks (delete_budget ns name) = false
only_asks (slave_of ip host port) = false
only_asks (config_set ip key value) = false
only_asks (repl_takeover ip timeout) = false
only_asks (client_kill ip addr) = false
only_asks _ = true

-- Calls that delete no pod.
abbrev pub no_delete : Call → Bool
no_delete (delete_pod pod) = false
no_delete _ = true

-- The second history is the first one with further calls, and all of these pass the test.
pub data Grows (p : Call → Bool) (h : History) : History → Type 0 where
  grown : Grows p h h
  more : {k : History} (call : Call) → p call ≡ true → Grows p h k → Grows p h (call ∷ k)

pub Grows-trans : {p : Call → Bool} {h k l : History} → Grows p h k → Grows p k l → Grows p h l
Grows-trans a grown = a
Grows-trans a (more call e b) = more call e (Grows-trans a b)

pub Grows-weaken :
    {p q : Call → Bool}
    → ((call : Call) → p call ≡ true → q call ≡ true)
    → {h k : History} → Grows p h k
    → Grows q h k
Grows-weaken w grown = grown
Grows-weaken w (more call e a) = more call (w call e) (Grows-weaken w a)

-- From one instance to a later one: all calls in between pass the test, and the open clients are still
-- those that the instance holds.
pub record Goes (p : Call → Bool) (s t : Instance) : Type 0 where
  pub grows : Grows p s.calls t.calls
  pub tracks : IsTracked s → IsTracked t

pub Goes-refl : {p : Call → Bool} (s : Instance) → Goes p s s
Goes-refl s = record { grows = grown; tracks = λ h. h }

pub Goes-trans : {p : Call → Bool} {s t u : Instance} → Goes p s t → Goes p t u → Goes p s u
Goes-trans a b = record { grows = Grows-trans a.grows b.grows; tracks = λ h. b.tracks (a.tracks h) }

-- All calls of the action pass the test.
pub record Within {ℓ} {A : Type ℓ} (p : Call → Bool) (m : M A) : Type 0 where
  pub at : (s : Instance) → Goes p s (m s).1

module _ {ℓ} {A : Type ℓ} {p : Call → Bool} where
  pub Within-pure : (a : A) → Within p (pure a)
  unfolding pure
  Within-pure a = record { at = λ s. Goes-refl s }

  pub Within-fail : (e : Err) → Within p (fail {A = A} e)
  unfolding fail
  Within-fail e = record { at = λ s. Goes-refl s }

  pub Within-attempt : {m : M A} → Within p m → Within p (attempt m)
  unfolding attempt
  Within-attempt w = record { at = λ s. w.at s }

  pub Within-rewrapping :
      (change : Err → Err) {m : M A} → Within p m → Within p (rewrapping change m)
  unfolding rewrapping
  Within-rewrapping change w = record { at = λ s. w.at s }

  pub Within-perform :
      (call : Call) (answer : History → Result A)
      → p call ≡ true
      → opens_or_closes call ≡ false
      → Within p (perform call answer)
  unfolding perform
  Within-perform call answer e f = record {
    at = λ s. record {
      grows = more call e grown;
      tracks = λ h ip. is_open-other ip call s.calls f ∙ h ip;
    };
  }

  pub Within-gets : (f : Instance → A) → Within p (gets f)
  unfolding gets
  Within-gets f = record { at = λ s. Goes-refl s }

  pub Within-if :
      (b : Bool) {m n : M A}
      → (b ≡ true → Within p m)
      → (b ≡ false → Within p n)
      → Within p (if b then m else n)
  Within-if true m n = m refl
  Within-if false m n = n refl

  pub Within-weaken :
      {q : Call → Bool} {m : M A}
      → ((call : Call) → p call ≡ true → q call ≡ true)
      → Within p m
      → Within q m
  Within-weaken w m = record {
    at = λ s. record { grows = Grows-weaken w (m.at s).grows; tracks = (m.at s).tracks };
  }

module _ {p : Call → Bool} where
  pub Within-set_df : (df : Dragonfly) → Within p (set_df df)
  unfolding set_df
  Within-set_df df = record { at = λ s. record { grows = grown; tracks = λ h. h } }

module _ {ℓ κ} {A : Type ℓ} {B : Type κ} {p : Call → Bool} where
  Goes-proceed :
      (r : Result A) (f : A → M B) (s : Instance)
      → ((a : A) → r ≡ ok a → Within p (f a))
      → Goes p s (proceed r f s).1
  Goes-proceed (ok a) f s w = (w a refl).at s
  Goes-proceed (err e) f s w = Goes-refl s

  pub Within-bind :
      {m : M A} {f : A → M B} → Within p m → ((a : A) → Within p (f a)) → Within p (m >>= f)
  unfolding ◌>>=◌
  Within-bind {m} {f} wm wf = record {
    at = λ s. Goes-trans (wm.at s) (Goes-proceed (m s).0 f (m s).1 (λ a e. wf a));
  }

module _ {ℓ κ} {A : Type ℓ} {B : Type κ} {p : Call → Bool} where
  -- The rest of a block may use which results the action has.
  pub Within-bind_of :
      {m : M A} {f : A → M B}
      → Within p m
      → ((a : A) (s : Instance) → (m s).0 ≡ ok a → Within p (f a))
      → Within p (m >>= f)
  unfolding ◌>>=◌
  Within-bind_of {m} {f} wm wf = record {
    at = λ s. Goes-trans (wm.at s) (Goes-proceed (m s).0 f (m s).1 (λ a e. wf a s e));
  }

pub ruleset footprint = (
  refl, Within-pure, Within-fail, Within-attempt, Within-rewrapping, Within-perform, Within-gets,
  Within-if, Within-set_df, Within-bind,
)

-- What a test permits, as the argument of the lemmas below and of those on the methods.
abbrev pub PermitsAsking : (Call → Bool) → Type 0
PermitsAsking p = (call : Call) → only_asks call ≡ true → p call ≡ true

abbrev pub PermitsChanging : (Call → Bool) → Type 0
PermitsChanging p = (call : Call) → no_delete call ≡ true → p call ≡ true

pub only_asks-PermitsAsking : PermitsAsking only_asks
only_asks-PermitsAsking call e = e

pub no_delete-PermitsAsking : PermitsAsking no_delete
no_delete-PermitsAsking call e = ground arith

pub no_delete-PermitsChanging : PermitsChanging no_delete
no_delete-PermitsChanging call e = e

get_redis_client-Grows :
    {p : Call → Bool}
    → PermitsAsking p
    → (ip : String) (s : Instance) → Grows p s.calls (get_redis_client ip s).1.calls
unfolding get_redis_client
get_redis_client-Grows asks ip s = elim (Bool-cases (member ip s.clients)) [
  | inl e ↦ rw e grown
  | inr e ↦ rw e (more (new_client ip) (asks (new_client ip) refl) grown)
]

pub get_redis_client-Within :
    {p : Call → Bool} → PermitsAsking p → (ip : String) → Within p (get_redis_client ip)
get_redis_client-Within asks ip = record {
  at = λ s. record {
    grows = get_redis_client-Grows asks ip s;
    tracks = get_redis_client-IsTracked ip s;
  };
}

pub close_all-Grows :
    {p : Call → Bool}
    → PermitsAsking p
    → (ips : List String) (h : History) → Grows p h (close_all ips h)
unfolding close_all
close_all-Grows asks [] h = grown
close_all-Grows asks (ip ∷ ips) h =
    Grows-trans (more (close_client ip) (asks (close_client ip) refl) grown)
      (close_all-Grows asks ips (close_client ip ∷ h))
