-- ===== src/Errors.antt =====
-- Go's `error` values: the handler's own error types (internal/handler/handler.go, pipeline.go),
-- texts (`errors.New`, and every error of a library), `fmt.Errorf` with `%w`, and `errors.Join`.
-- `errors.As` walks an error before what it wraps, and a joined error from left to right.
use geul_asset_optimizer.Base.{ℕ, String, ◌<>◌, ◌≡◌, Bool, true, false, Option, none, some, arith}
use geul_asset_optimizer.Contracts.{FailureReason, internal}

pub data Error : Type 0 where
  message : String → Error
  wrap : String → Error → String → Error
  join : Error → Error → Error
  pipeline_failure : FailureReason → Error → Error
  result_publish_error : Error → Error
  terminal_result_error : Error → Error

-- A call's value, or its error.
pub data Result {ℓ} (A : Type ℓ) : Type ℓ where
  ok : A → Result A
  err : Error → Result A

abbrev pub is_err {ℓ} : {A : Type ℓ} → Result A → Bool
is_err (ok a) = false
is_err (err e) = true

abbrev pub one_if_ok {ℓ} : {A : Type ℓ} → Result A → ℕ
one_if_ok (ok a) = 1
one_if_ok (err e) = 0

pub ok_injective {ℓ} : {A : Type ℓ} {a b : A} → ok a ≡ ok b → a ≡ b
ok_injective h = cc

-- The error that a call returned beside its value.
abbrev pub error_of {ℓ} : {A : Type ℓ} → Result A → Option Error
error_of (ok a) = none
error_of (err e) = some e

-- `err != nil`
abbrev pub is_some : Option Error → Bool
is_some none = false
is_some (some e) = true

-- `err.Error()`
unfoldable pub error_text : Error → String
error_text (message s) = s
error_text (wrap before e after) = before <> error_text e <> after
error_text (join a b) = error_text a <> "\n" <> error_text b
error_text (pipeline_failure reason e) = error_text e
error_text (result_publish_error e) = error_text e
error_text (terminal_result_error e) = error_text e

abbrev pub or_else {ℓ} : {A : Type ℓ} → Option A → Option A → Option A
or_else none o = o
or_else (some a) o = some a

-- `errors.As` for the type of each, with the method's answer.
pub as_terminal : Error → Option Bool
as_terminal (message s) = none
as_terminal (wrap before e after) = as_terminal e
as_terminal (join a b) = or_else (as_terminal a) (as_terminal b)
as_terminal (pipeline_failure reason e) = as_terminal e
as_terminal (result_publish_error e) = as_terminal e
as_terminal (terminal_result_error e) = some true

pub as_retryable : Error → Option Bool
as_retryable (message s) = none
as_retryable (wrap before e after) = as_retryable e
as_retryable (join a b) = or_else (as_retryable a) (as_retryable b)
as_retryable (pipeline_failure reason e) = as_retryable e
as_retryable (result_publish_error e) = some true
as_retryable (terminal_result_error e) = as_retryable e

abbrev holds : Option Bool → Bool
holds none = false
holds (some b) = b

-- The argument is the result of a handler, `none` for `nil`.
unfoldable pub is_terminal_result : Option Error → Bool
unfolding as_terminal
is_terminal_result none = false
is_terminal_result (some e) = holds (as_terminal e)

unfoldable pub is_retryable : Option Error → Bool
unfolding as_retryable
is_retryable none = false
is_retryable (some e) = holds (as_retryable e)

unfoldable pub as_pipeline_failure : Error → Option FailureReason
as_pipeline_failure (message s) = none
as_pipeline_failure (wrap before e after) = as_pipeline_failure e
as_pipeline_failure (join a b) = or_else (as_pipeline_failure a) (as_pipeline_failure b)
as_pipeline_failure (pipeline_failure reason e) = some reason
as_pipeline_failure (result_publish_error e) = as_pipeline_failure e
as_pipeline_failure (terminal_result_error e) = as_pipeline_failure e

unfoldable pub pipeline_failure_reason : Error → FailureReason
unfolding as_pipeline_failure
pipeline_failure_reason e = elim (as_pipeline_failure e) [ none ↦ internal | some reason ↦ reason ]

-- An error that no handler has classified yet: neither terminal nor to be retried.
abbrev pub IsPlain : Error → Type 0
IsPlain (message s) = Unit
IsPlain (wrap before e after) = IsPlain e
IsPlain (join a b) = IsPlain a × IsPlain b
IsPlain (pipeline_failure reason e) = IsPlain e
IsPlain (result_publish_error e) = ⊥
IsPlain (terminal_result_error e) = ⊥

pub IsPlain-as_none : (e : Error) → IsPlain e → (as_terminal e ≡ none) × (as_retryable e ≡ none)
unfolding as_terminal as_retryable
IsPlain-as_none (message s) h = ground arith
IsPlain-as_none (wrap before e after) h = IsPlain-as_none e h
IsPlain-as_none (join a b) (ha, hb) = ground (arith, IsPlain-as_none a ha, IsPlain-as_none b hb)
IsPlain-as_none (pipeline_failure reason e) h = IsPlain-as_none e h
IsPlain-as_none (result_publish_error e) h = elim h [ ]
IsPlain-as_none (terminal_result_error e) h = elim h [ ]

-- `if failed { return errors.New(text) }`
unfoldable pub refuse_if : Bool → String → Result (Unit {0})
refuse_if true text = err (message text)
refuse_if false text = ok tt

infixl 5 ◌>>=◌ ◌>>◌
-- A call whose error is returned at once.
unfoldable pub ◌>>=◌ {ℓ κ} : {A : Type ℓ} {B : Type κ} → Result A → (A → Result B) → Result B
err failure >>= next = err failure
ok value >>= next = next value

abbrev pub ◌>>◌ {κ} : {B : Type κ} → Result (Unit {0}) → Result B → Result B
check >> next = check >>= λ _. next
