-- ===== src/MysqlCopy/Failure.antt =====
-- internal/mysqlcopy/failure.go: the redacted diagnostics. A Go error is a tree: a sentinel, a
-- foreign error with its text, a wrapper (`Unwrap() error`), a group (`Unwrap() []error`), or a
-- `*Failure`.
pub mod Redaction
mod Walk
mod Tests
use runner.Prelude.{
  ℕ, zero, suc, String, Bool, true, false, ◌&&◌, ◌||◌, List, [], ◌∷◌, ◌++◌, Option, none, some,
  str_eq, any, take, if◌then◌else◌, not, ltb, length,
}

abbrev pub Stage : Type 0
Stage = String

pub data Sentinel : Type 0 where
  canceled deadline_exceeded unsafe partial operation : Sentinel

mutual
  pub data Error : Type 0 where
    sentinel : Sentinel → Error
    foreign : String → Error
    wrapped : Error → Error
    joined : Errors → Error
    failure : Stage → String → Error → Error

  pub data Errors : Type 0 where
    nil : Errors
    cons : Error → Errors → Errors

abbrev pub same_sentinel : Sentinel → Sentinel → Bool
same_sentinel canceled canceled = true
same_sentinel deadline_exceeded deadline_exceeded = true
same_sentinel unsafe unsafe = true
same_sentinel partial partial = true
same_sentinel operation operation = true
same_sentinel _ _ = false

-- errors.Is, which walks the tree in pre-order.
unfoldable mutual
  pub is : Sentinel → Error → Bool
  is s (sentinel t) = same_sentinel s t
  is s (foreign text) = false
  is s (wrapped e) = is s e
  is s (joined es) = is_any s es
  is s (failure stage code cause) = is s cause

  pub is_any : Sentinel → Errors → Bool
  is_any s nil = false
  is_any s (cons e es) = is s e || is_any s es

-- The `*Failure` that errors.As finds, with its fields.
pub record Found : Type 0 where
  pub stage : Stage
  pub code : String
  pub cause : Error

abbrev or_else : Option Found → Option Found → Option Found
or_else (some f) other = some f
or_else none other = other

unfoldable mutual
  pub as_failure : Error → Option Found
  as_failure (sentinel t) = none
  as_failure (foreign text) = none
  as_failure (wrapped e) = as_failure e
  as_failure (joined es) = as_failure_any es
  as_failure (failure stage code cause) =
      some (record { stage = stage; code = code; cause = cause })

  pub as_failure_any : Errors → Option Found
  as_failure_any nil = none
  as_failure_any (cons e es) = or_else (as_failure e) (as_failure_any es)

-- The constants of plan.go and failure.go.
abbrev pub defined_stages : List Stage
defined_stages =
    "read_source" ∷ "hold_ddl" ∷ "provision_target" ∷ "transfer" ∷ "verify" ∷ "complete"
    ∷ "validate_plan" ∷ "check_credentials" ∷ "inspect_target" ∷ "shutdown_target"
    ∷ "commit_receipt" ∷ "release_ddl" ∷ "cleanup_helpers" ∷ "cleanup_namespace"
    ∷ "delete_source_helper" ∷ "wait_source_helper_deleted" ∷ "delete_target_helper"
    ∷ "wait_target_helper_deleted" ∷ "unknown" ∷ []

unfoldable pub defined_stage : Stage → Bool
defined_stage stage = any (λ s. str_eq stage s) defined_stages

-- The switch of safeFailure: the code and the sentinel that stand for an error.
unfoldable pub classify : Error → String × Sentinel
unfolding is
classify e =
    if is canceled e
    then ("cancelled", canceled)
    else if is deadline_exceeded e
    then ("deadline_exceeded", deadline_exceeded)
    else if is partial e
    then ("partial_target", partial)
    else if is unsafe e
    then ("safety_refusal", unsafe)
    else ("operation_failed", operation)

-- safeCause
unfoldable pub safe_cause : Error → Sentinel
unfolding is
safe_cause e =
    if is canceled e
    then canceled
    else if is deadline_exceeded e
    then deadline_exceeded
    else if is partial e
    then partial
    else if is unsafe e
    then unsafe
    else operation

unfoldable pub known_stage : Stage → Stage
unfolding defined_stage
known_stage stage = if defined_stage stage then stage else "unknown"

-- A `*Failure` below keeps its stage and code, if it has both; otherwise the stage is the caller's.
unfoldable pub fresh_failure : Stage → Error → Error
unfolding known_stage classify
fresh_failure stage e =
    let (code, cause) = classify e in failure (known_stage stage) code (sentinel cause)

unfoldable pub safe_found : Stage → Error → Option Found → Error
unfolding fresh_failure safe_cause
safe_found stage e none = fresh_failure stage e
safe_found stage e (some f) =
    if not (str_eq f.stage "") && not (str_eq f.code "")
    then failure f.stage f.code (sentinel (safe_cause f.cause))
    else fresh_failure stage e

-- safeFailure of an error that is not nil. errors.Join and fmt.Errorf make no group of no errors;
-- the result for one, `joined nil`, stands for the nil that errors.Join of nothing is.
unfoldable mutual
  unfolding as_failure safe_found

  pub safe_failure : Stage → Error → Error
  safe_failure stage (joined es) = joined (safe_failures stage es)
  safe_failure stage (sentinel t) = safe_found stage (sentinel t) none
  safe_failure stage (foreign text) = safe_found stage (foreign text) none
  safe_failure stage (wrapped e) = safe_found stage (wrapped e) (as_failure (wrapped e))
  safe_failure stage (failure s code cause) =
      safe_found stage (failure s code cause) (as_failure (failure s code cause))

  pub safe_failures : Stage → Errors → Errors
  safe_failures stage nil = nil
  safe_failures stage (cons e es) = cons (safe_failure stage e) (safe_failures stage es)
