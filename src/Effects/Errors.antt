-- ===== src/Effects/Errors.antt =====
-- Go's errors, as far as the controllers tell them apart (internal/controller/util.go).
use dragonfly_operator.Prelude.{String, ◌<>◌, Bool, true, false}
use dragonfly_operator.Text.{contains}

-- `answered` is an error of the API server or of a pod, marked if it says that an object was not
-- found; `errorf` is an error of the operator; `wrap` is `fmt.Errorf("…: %w", err)`.
pub data Err : Type 0 where
  no_master no_healthy_master incorrect_masters : Err
  answered : Bool → String → Err
  errorf : String → Err
  wrap : String → Err → Err

pub data Result {ℓ} (A : Type ℓ) : Type ℓ where
  ok : A → Result A
  err : Err → Result A

-- `err.Error()`.
unfoldable pub error_text : Err → String
error_text no_master = "no master found"
error_text no_healthy_master = "no healthy master found"
error_text incorrect_masters = "incorrect number of masters"
error_text (answered not_found text) = text
error_text (errorf text) = text
error_text (wrap prefix e) = prefix <> ": " <> error_text e

-- `apierrors.IsNotFound(err)`, which looks through wrapped errors.
unfoldable pub is_not_found : Err → Bool
is_not_found (answered not_found text) = not_found
is_not_found (wrap prefix e) = is_not_found e
is_not_found _ = false

-- `errors.Is(err, ErrNoHealthyMaster) || errors.Is(err, ErrIncorrectMasters)`.
unfoldable pub is_unusable_master_error : Err → Bool
is_unusable_master_error no_healthy_master = true
is_unusable_master_error incorrect_masters = true
is_unusable_master_error (wrap prefix e) = is_unusable_master_error e
is_unusable_master_error _ = false

unfoldable pub is_master_error : Err → Bool
is_master_error no_master = true
is_master_error no_healthy_master = true
is_master_error incorrect_masters = true
is_master_error (wrap prefix e) = is_master_error e
is_master_error _ = false

unfoldable pub is_replication_cancelled_error : Err → Bool
unfolding contains error_text
is_replication_cancelled_error e = contains (error_text e) "replication cancelled"

-- `client.IgnoreNotFound(err)`: the result that is returned with no error, or the error.
unfoldable pub ignore_not_found {ℓ} : {A : Type ℓ} → A → Err → Result A
ignore_not_found a e = elim (is_not_found e) [ true ↦ ok a | false ↦ err e ]
