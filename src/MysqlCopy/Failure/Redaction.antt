-- ===== src/MysqlCopy/Failure/Redaction.antt =====
-- What safeFailure promises: nothing but constants leaves the package, and the classification that
-- callers read with errors.Is survives.
use mathlib.Core.Path.{ap₂}
use runner.Prelude.{
  ◌≡◌, refl, sym, ◌∙◌, String, true, false, ◌&&◌, ◌||◌, Option, none, some, str_eq, arith,
  if◌then◌else◌, not, Bool-cases, inl, inr,
}
use runner.MysqlCopy.Failure.{
  Stage, Sentinel, canceled, deadline_exceeded, unsafe, partial, operation, Error, sentinel,
  foreign, wrapped, joined, failure, Errors, nil, cons, is, as_failure, as_failure_any, Found,
  or_else, same_sentinel, defined_stage, classify, safe_cause, known_stage, fresh_failure,
  safe_found, safe_failure, safe_failures,
}

-- The code that goes with each sentinel.
abbrev pub code_of : Sentinel → String
code_of canceled = "cancelled"
code_of deadline_exceeded = "deadline_exceeded"
code_of partial = "partial_target"
code_of unsafe = "safety_refusal"
code_of operation = "operation_failed"

-- A tree whose leaves are failures made of constants: a defined stage, and the code of the one
-- sentinel that is its cause.
abbrev mutual
  pub IsRedacted : Error → Type 0
  IsRedacted (sentinel s) = ⊥
  IsRedacted (foreign text) = ⊥
  IsRedacted (wrapped e) = ⊥
  IsRedacted (joined es) = AllRedacted es
  IsRedacted (failure stage code (sentinel s)) = (defined_stage stage ≡ true) × (code ≡ code_of s)
  IsRedacted (failure stage code cause) = ⊥

  pub AllRedacted : Errors → Type 0
  AllRedacted nil = Unit
  AllRedacted (cons e es) = IsRedacted e × AllRedacted es

-- Every failure inside an error is one that safeFailure has made.
abbrev mutual
  pub IsTrusted : Error → Type 0
  IsTrusted (sentinel s) = Unit
  IsTrusted (foreign text) = Unit
  IsTrusted (wrapped e) = IsTrusted e
  IsTrusted (joined es) = AllTrusted es
  IsTrusted (failure stage code cause) = IsRedacted (failure stage code cause)

  pub AllTrusted : Errors → Type 0
  AllTrusted nil = Unit
  AllTrusted (cons e es) = IsTrusted e × AllTrusted es

classify_code : (e : Error) → (classify e).0 ≡ code_of (classify e).1
unfolding classify
classify_code e = ground arith

known_stage-defined : (stage : Stage) → defined_stage (known_stage stage) ≡ true
unfolding known_stage
known_stage-defined stage = elim (Bool-cases (defined_stage stage)) [
  | inl h ↦ rw h h
  | inr h ↦ rw h (unfold defined_stage in refl)
]

fresh_failure-IsRedacted : (stage : Stage) (e : Error) → IsRedacted (fresh_failure stage e)
unfolding fresh_failure
fresh_failure-IsRedacted stage e = (known_stage-defined stage, classify_code e)

abbrev FoundRedacted : Option Found → Type 0
FoundRedacted none = Unit
FoundRedacted (some f) = IsRedacted (failure f.stage f.code f.cause)

-- The cause of a redacted failure is its own classification.
safe_cause-sentinel : (s : Sentinel) → safe_cause (sentinel s) ≡ s
unfolding safe_cause classify is
safe_cause-sentinel canceled = refl
safe_cause-sentinel deadline_exceeded = refl
safe_cause-sentinel unsafe = refl
safe_cause-sentinel partial = refl
safe_cause-sentinel operation = refl

kept-IsRedacted :
    (stage : Stage) (code : String) (cause : Error)
    → IsRedacted (failure stage code cause)
    → IsRedacted (failure stage code (sentinel (safe_cause cause)))
kept-IsRedacted stage code (sentinel s) h = rw (safe_cause-sentinel s) h
kept-IsRedacted stage code (foreign text) h = absurd h
kept-IsRedacted stage code (wrapped e) h = absurd h
kept-IsRedacted stage code (joined es) h = absurd h
kept-IsRedacted stage code (failure s c e) h = absurd h

safe_found-IsRedacted :
    (stage : Stage) (e : Error) (o : Option Found)
    → FoundRedacted o
    → IsRedacted (safe_found stage e o)
unfolding safe_found
safe_found-IsRedacted stage e none h = fresh_failure-IsRedacted stage e
safe_found-IsRedacted stage e (some f) h =
    elim (str_eq f.stage "")
      as (λ b. IsRedacted (
        if not b && not (str_eq f.code "")
        then failure f.stage f.code (sentinel (safe_cause f.cause))
        else fresh_failure stage e)) [
          | true ↦ fresh_failure-IsRedacted stage e
          | false ↦
              elim (str_eq f.code "")
                as (λ b. IsRedacted (
                  if not b
                  then failure f.stage f.code (sentinel (safe_cause f.cause))
                  else fresh_failure stage e)) [
                    | true ↦ fresh_failure-IsRedacted stage e
                    | false ↦ kept-IsRedacted f.stage f.code f.cause h
                  ]
        ]

or_else-FoundRedacted :
    (a b : Option Found) → FoundRedacted a → FoundRedacted b → FoundRedacted (or_else a b)
or_else-FoundRedacted none b ha hb = hb
or_else-FoundRedacted (some f) b ha hb = ha

mutual
  unfolding as_failure as_failure_any

  found-redacted : (e : Error) → IsTrusted e → FoundRedacted (as_failure e)
  found-redacted (sentinel s) h = tt
  found-redacted (foreign text) h = tt
  found-redacted (wrapped e) h = found-redacted e h
  found-redacted (joined es) h = found_any-redacted es h
  found-redacted (failure stage code cause) h = h

  found_any-redacted : (es : Errors) → AllTrusted es → FoundRedacted (as_failure_any es)
  found_any-redacted nil h = tt
  found_any-redacted (cons e es) h =
      or_else-FoundRedacted (as_failure e) (as_failure_any es) (found-redacted e h.0)
        (found_any-redacted es h.1)

mutual
  unfolding safe_failure safe_failures

  redacts : (stage : Stage) (e : Error) → IsTrusted e → IsRedacted (safe_failure stage e)
  redacts stage (sentinel s) h = safe_found-IsRedacted stage (sentinel s) none tt
  redacts stage (foreign text) h = safe_found-IsRedacted stage (foreign text) none tt
  redacts stage (wrapped e) h =
      safe_found-IsRedacted stage (wrapped e) (as_failure (wrapped e))
        (found-redacted (wrapped e) h)
  redacts stage (joined es) h = redacts_all stage es h
  redacts stage (failure s code cause) h =
      safe_found-IsRedacted stage (failure s code cause) (as_failure (failure s code cause))
        (found-redacted (failure s code cause) h)

  redacts_all : (stage : Stage) (es : Errors) → AllTrusted es → AllRedacted (safe_failures stage es)
  redacts_all stage nil h = tt
  redacts_all stage (cons e es) h = (redacts stage e h.0, redacts_all stage es h.1)

-- Whatever error a step returned and whatever the stage was, safeFailure returns a tree that holds
-- nothing but constants: each leaf has a defined stage, one of the five codes, and as its cause the
-- sentinel of that code. The failures inside the error must be safeFailure's own, as all are.
pub safe_failure-IsRedacted :
    (stage : Stage) (e : Error) → IsTrusted e → IsRedacted (safe_failure stage e)
safe_failure-IsRedacted stage e h = redacts stage e h

-- No failure is hidden inside a wrapper, where its siblings' classes would be lost.
abbrev mutual
  pub IsPlain : Error → Type 0
  IsPlain (sentinel s) = Unit
  IsPlain (foreign text) = Unit
  IsPlain (wrapped e) = as_failure e ≡ none
  IsPlain (joined es) = AllPlain es
  IsPlain (failure stage code cause) = Unit

  pub AllPlain : Errors → Type 0
  AllPlain nil = Unit
  AllPlain (cons e es) = IsPlain e × AllPlain es

-- The class of a join is the first of its parts' classes in this order.
abbrev worst : Sentinel → Sentinel → Sentinel
worst canceled t = canceled
worst deadline_exceeded t = if same_sentinel canceled t then t else deadline_exceeded
worst partial t =
    if same_sentinel canceled t || same_sentinel deadline_exceeded t then t else partial
worst unsafe t = if same_sentinel operation t then unsafe else t
worst operation t = t

classify-cons :
    (e : Error) (es : Errors)
    → safe_cause (joined (cons e es)) ≡ worst (safe_cause e) (safe_cause (joined es))
unfolding safe_cause classify is
classify-cons e es = ground arith

classify-failure :
    (stage : Stage) (code : String) (s : Sentinel)
    → safe_cause (failure stage code (sentinel s)) ≡ s
unfolding safe_cause classify is
classify-failure stage code canceled = refl
classify-failure stage code deadline_exceeded = refl
classify-failure stage code unsafe = refl
classify-failure stage code partial = refl
classify-failure stage code operation = refl

classify-cause :
    (stage : Stage) (code : String) (e : Error) → safe_cause (failure stage code e) ≡ safe_cause e
unfolding safe_cause classify is
classify-cause stage code e = refl

classify_cause : (e : Error) → (classify e).1 ≡ safe_cause e
unfolding classify safe_cause
classify_cause e = ground arith

classify-fresh : (stage : Stage) (e : Error) → safe_cause (fresh_failure stage e) ≡ safe_cause e
unfolding fresh_failure
classify-fresh stage e =
    classify-failure (known_stage stage) (classify e).0 (classify e).1 ∙ classify_cause e

abbrev FoundClass : Error → Option Found → Type 0
FoundClass e none = Unit
FoundClass e (some f) = safe_cause f.cause ≡ safe_cause e

classify-found :
    (stage : Stage) (e : Error) (o : Option Found)
    → FoundClass e o
    → safe_cause (safe_found stage e o) ≡ safe_cause e
unfolding safe_found
classify-found stage e none h = classify-fresh stage e
classify-found stage e (some f) h =
    elim (Bool-cases (not (str_eq f.stage "") && not (str_eq f.code ""))) [
      | inl kept ↦ rw kept (classify-failure f.stage f.code (safe_cause f.cause) ∙ h)
      | inr fresh ↦ rw fresh (classify-fresh stage e)
    ]

mutual
  unfolding safe_failure safe_failures as_failure

  same_class :
      (stage : Stage) (e : Error) → IsPlain e → safe_cause (safe_failure stage e) ≡ safe_cause e
  same_class stage (sentinel s) h = classify-fresh stage (sentinel s)
  same_class stage (foreign text) h = classify-fresh stage (foreign text)
  same_class stage (wrapped e) h = rw h (classify-fresh stage (wrapped e))
  same_class stage (joined es) h = same_class_all stage es h
  same_class stage (failure s code cause) h =
      classify-found stage (failure s code cause)
        (some (record { stage = s; code = code; cause = cause }))
        (sym (classify-cause s code cause))

  same_class_all :
      (stage : Stage) (es : Errors)
      → AllPlain es
      → safe_cause (joined (safe_failures stage es)) ≡ safe_cause (joined es)
  same_class_all stage nil h = refl
  same_class_all stage (cons e es) h =
      classify-cons (safe_failure stage e) (safe_failures stage es)
      ∙ ap₂ worst (same_class stage e h.0) (same_class_all stage es h.1)
      ∙ sym (classify-cons e es)

-- Redaction keeps the class of an error: the sentinel by which safeFailure classifies it (canceled
-- before deadline_exceeded, partial, unsafe and operation, by errors.Is over the whole tree) is that of the
-- redacted error, joins included, for errors with no failure inside a wrapper.
pub safe_cause-safe_failure :
    (stage : Stage) (e : Error) → IsPlain e → safe_cause (safe_failure stage e) ≡ safe_cause e
safe_cause-safe_failure stage e h = same_class stage e h
