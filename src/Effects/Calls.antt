-- ===== src/Effects/Calls.antt =====
-- The calls to the outside, the answers as functions of all earlier calls, and the state of a
-- `DragonflyInstance` (internal/controller/dragonfly_instance.go).
use dragonfly_operator.Prelude.{ℕ, String, List, ◌∷◌, ◌<>◌}
use dragonfly_operator.Prelude.Dict.{Dict}
use dragonfly_operator.Kube.{Pod, Dragonfly, StatefulSet}
use dragonfly_operator.Kube.Objects.{Object}
use dragonfly_operator.Effects.Errors.{Err, wrap, errorf, error_text, Result, ok, err}

-- Pods, custom resources and stateful sets are named by namespace and name, and instances of
-- Dragonfly by the address of their pod. A patch holds the object before and after the change. A
-- generated object is asked for by its kind, namespace and name.
pub data Call : Type 0 where
  get_pod get_dragonfly get_stateful_set : String → String → Call
  list_pods : String → Dict String → Call
  patch_pod patch_pod_status : Pod → Pod → Call
  delete_pod : Pod → Call
  patch_dragonfly_status : Dragonfly → Dragonfly → Call
  record_event : String → String → Call
  get_object : String → String → String → Call
  create_object : Object → Call
  patch_object : Object → Object → Call
  delete_budget : String → String → Call
  new_client close_client : String → Call
  info : String → String → Call
  ping : String → Call
  slave_of : String → String → String → Call
  config_set : String → String → String → Call
  repl_takeover : String → String → Call
  client_list : String → Call
  client_kill : String → String → Call

-- The calls made so far, the last one first.
abbrev pub History : Type 0
History = List Call

-- The outside may answer in any way, and differently at each call, since an answer may depend on the
-- whole history.
pub record Env : Type 0 where
  pub get_pod : History → String → String → Result Pod
  pub get_dragonfly : History → String → String → Result Dragonfly
  pub get_stateful_set : History → String → String → Result StatefulSet
  pub list_pods : History → String → Dict String → Result (List Pod)
  pub patch_pod : History → Pod → Pod → Result Pod
  pub patch_pod_status : History → Pod → Pod → Result Pod
  pub delete_pod : History → Pod → Result (Unit {0})
  pub patch_dragonfly_status : History → Dragonfly → Dragonfly → Result Dragonfly
  pub get_object : History → String → String → String → Result Object
  pub create_object : History → Object → Result (Unit {0})
  pub patch_object : History → Object → Object → Result (Unit {0})
  pub delete_budget : History → String → String → Result (Unit {0})
  pub now : History → ℕ
  pub info : History → String → String → Result String
  pub ping : History → String → Result (Unit {0})
  pub slave_of : History → String → String → String → Result String
  pub config_set : History → String → String → String → Result (Unit {0})
  pub repl_takeover : History → String → String → Result String
  pub client_list : History → String → Result String
  pub client_kill : History → String → String → Result (Unit {0})

-- `DragonflyInstance`: the custom resource, the addresses that have an open client in
-- `redisClients`, and the history.
pub record Instance : Type 0 where
  pub df : Dragonfly
  pub clients : List String
  pub calls : History

abbrev on_error {ℓ} : {A : Type ℓ} → (Err → Err) → Result A → Result A
on_error change (ok a) = ok a
on_error change (err e) = err (change e)

-- A method: it may fail, and changes the instance also where it fails.
abbrev pub M {ℓ} : Type ℓ → Type ℓ
M A = Instance → Result A × Instance

abbrev pub proceed {ℓ κ} :
    {A : Type ℓ} {B : Type κ} → Result A → (A → M B) → Instance → Result B × Instance
proceed (ok a) f s = f a s
proceed (err e) f s = (err e, s)

unfoldable pub pure {ℓ} : {A : Type ℓ} → A → M A
pure a s = (ok a, s)

unfoldable pub fail {ℓ} : {A : Type ℓ} → Err → M A
fail e s = (err e, s)

-- The error as a value, for code that looks at it.
unfoldable pub attempt {ℓ} : {A : Type ℓ} → M A → M (Result A)
attempt m s = let (r, t) = m s in (ok r, t)

-- The error changed on its way out.
unfoldable pub rewrapping {ℓ} : {A : Type ℓ} → (Err → Err) → M A → M A
rewrapping change m s = let (r, t) = m s in (on_error change r, t)

-- `if err != nil { return …, fmt.Errorf("prefix: %w", err) }`.
abbrev pub wrapping {ℓ} : {A : Type ℓ} → String → M A → M A
wrapping prefix = rewrapping (wrap prefix)

-- `fmt.Errorf("prefix%s", err)`: the text of the error goes on, and its chain is lost.
abbrev pub flattening {ℓ} : {A : Type ℓ} → String → M A → M A
flattening prefix = rewrapping (λ e. errorf (prefix <> error_text e))

-- An answer from the outside, on record.
unfoldable pub perform {ℓ} : {A : Type ℓ} → Call → (History → Result A) → M A
perform call answer s = (answer s.calls, record s { calls = call ∷ s.calls })

-- The fields of the instance.
unfoldable pub gets {ℓ} : {A : Type ℓ} → (Instance → A) → M A
gets f s = (ok (f s), s)

unfoldable pub set_df : Dragonfly → M (Unit {0})
set_df df s = (ok tt, record s { df = df })

-- Opening the operator opens the other combinators too.
infixl 5 ◌>>=◌ ◌>>◌
unfoldable pub ◌>>=◌ {ℓ κ} : {A : Type ℓ} {B : Type κ} → M A → (A → M B) → M B
unfolding pure fail attempt rewrapping perform gets set_df
◌>>=◌ m f s = let (r, t) = m s in proceed r f t

abbrev pub ◌>>◌ {ℓ} : {B : Type ℓ} → M (Unit {0}) → M B → M B
m >> k = m >>= λ _. k
