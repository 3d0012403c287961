-- ===== src/MysqlCopy/Failure/Walk.antt =====
-- FailureInfo, FailureStages and StageOf of internal/mysqlcopy/failure.go: bounded walks.
use runner.Prelude.{
  ℕ, zero, suc, ◌+◌, ◌≤◌, ◌<◌, ◌≡◌, refl, String, true, false, ◌&&◌, List, [], ◌∷◌, ◌++◌, Option,
  none, some, str_eq, eq_iff, any, length, ltb, if◌then◌else◌, not, arith, Bool-cases, inl, inr,
  All, All-append, ltb→lt,
}
use runner.MysqlCopy.Failure.{
  Stage, Error, sentinel, foreign, wrapped, joined, failure, Errors, nil, cons, defined_stage,
  known_stage,
}

-- The children of a group, the first 64 of them.
children : ℕ → Errors → List Error
children zero es = []
children (suc n) nil = []
children (suc n) (cons e es) = e ∷ children n es

-- The five codes of safeFailure; any other is reported as operation_failed.
abbrev pub codes_known : List String
codes_known =
    "cancelled" ∷ "deadline_exceeded" ∷ "partial_target" ∷ "safety_refusal" ∷ "operation_failed"
    ∷ []

known_code : String → String
known_code code = if any (λ c. str_eq code c) codes_known then code else "operation_failed"

-- What an error that is no `*Failure` puts at the head of the queue.
unwrap : Error → List Error
unfolding children
unwrap (sentinel s) = []
unwrap (foreign text) = []
unwrap (wrapped e) = e ∷ []
unwrap (joined es) = children 64 es
unwrap (failure stage code cause) = cause ∷ []

-- The loop of FailureInfo, on the visits that are left.
info_loop : ℕ → List Error → String × String
info_loop zero queue = ("unknown", "operation_failed")
info_loop (suc n) [] = ("unknown", "operation_failed")
info_loop (suc n) (failure stage code cause ∷ queue) = (known_stage stage, known_code code)
info_loop (suc n) (sentinel s ∷ queue) = info_loop n queue
info_loop (suc n) (foreign text ∷ queue) = info_loop n queue
info_loop (suc n) (wrapped e ∷ queue) = info_loop n (e ∷ queue)
info_loop (suc n) (joined es ∷ queue) = info_loop n (children 64 es ++ queue)

-- FailureInfo; none is Go's nil.
pub failure_info : Option Error → String × String
unfolding info_loop known_code known_stage children
failure_info none = ("", "")
failure_info (some e) = info_loop 64 (e ∷ [])

-- A stage is recorded once, if it is one of the constants.
record_stage : Error → List Stage → List Stage
unfolding defined_stage
record_stage (failure stage code cause) stages =
    if defined_stage stage && not (any (λ s. str_eq stage s) stages)
    then stages ++ stage ∷ []
    else stages
record_stage (sentinel s) stages = stages
record_stage (foreign text) stages = stages
record_stage (wrapped e) stages = stages
record_stage (joined es) stages = stages

-- The loop of FailureStages, on the visits that are left.
stages_loop : ℕ → List Error → List Stage → List Stage
stages_loop zero queue stages = stages
stages_loop (suc n) [] stages = stages
stages_loop (suc n) (e ∷ queue) stages =
    let rest = stages_loop n (unwrap e ++ queue) (record_stage e stages) in
    if ltb (length stages) 20 then rest else stages

-- FailureStages; none is Go's nil.
pub failure_stages : Option Error → List Stage
unfolding stages_loop record_stage unwrap
failure_stages none = []
failure_stages (some e) = stages_loop 64 (e ∷ []) []

-- StageOf
pub stage_of : Option Error → Stage
unfolding failure_stages
stage_of none = ""
stage_of (some e) = elim (failure_stages (some e)) [ [] ↦ "unknown" | stage ∷ stages ↦ stage ]

abbrev IsKnownCode : String → Type 0
IsKnownCode code = any (λ c. str_eq code c) codes_known ≡ true

known_stage-defined : (stage : Stage) → defined_stage (known_stage stage) ≡ true
unfolding known_stage
known_stage-defined stage = elim (Bool-cases (defined_stage stage)) [
  | inl h ↦ rw h h
  | inr h ↦ rw h (unfold defined_stage in refl)
]

known_code_lem : (code : String) → IsKnownCode (known_code code)
unfolding known_code
known_code_lem code = elim (Bool-cases (any (λ c. str_eq code c) codes_known)) [
  | inl h ↦ rw h h
  | inr h ↦ rw h refl
]

abbrev IsConstant : String × String → Type 0
IsConstant r = (defined_stage r.0 ≡ true) × IsKnownCode r.1

unknown-IsConstant : IsConstant ("unknown", "operation_failed")
unfolding defined_stage
unknown-IsConstant = (refl, refl)

info_loop-IsConstant : (n : ℕ) (queue : List Error) → IsConstant (info_loop n queue)
unfolding info_loop
info_loop-IsConstant zero queue = unknown-IsConstant
info_loop-IsConstant (suc n) [] = unknown-IsConstant
info_loop-IsConstant (suc n) (failure stage code cause ∷ queue) =
    (known_stage-defined stage, known_code_lem code)
info_loop-IsConstant (suc n) (sentinel s ∷ queue) = info_loop-IsConstant n queue
info_loop-IsConstant (suc n) (foreign text ∷ queue) = info_loop-IsConstant n queue
info_loop-IsConstant (suc n) (wrapped e ∷ queue) = info_loop-IsConstant n (e ∷ queue)
info_loop-IsConstant (suc n) (joined es ∷ queue) = info_loop-IsConstant n (children 64 es ++ queue)

-- Of any error that is not nil, however deep, wide or foreign, FailureInfo reports a defined stage
-- and one of the five codes, and nothing else.
pub failure_info-IsConstant : (e : Error) → IsConstant (failure_info (some e))
unfolding failure_info
failure_info-IsConstant e = info_loop-IsConstant 64 (e ∷ [])

abbrev AreDistinct : List Stage → Type 0
AreDistinct [] = Unit
AreDistinct (stage ∷ stages) = (any (λ s. str_eq stage s) stages ≡ false) × AreDistinct stages

-- What the walk keeps of its list: it is short, has only constants, and no stage twice.
pub record AreReported (stages : List Stage) : Type 0 where
  pub bounded : length stages ≤ 20
  pub defined : All (λ s. defined_stage s ≡ true) stages
  pub distinct : AreDistinct stages

length-snoc :
    (stages : List Stage) (stage : Stage) → length (stages ++ stage ∷ []) ≡ length stages + 1
length-snoc [] stage = refl
length-snoc (s ∷ stages) stage = omega (arith, length-snoc stages stage)

any-snoc :
    (s stage : Stage) (stages : List Stage)
    → any (λ t. str_eq s t) stages ≡ false
    → str_eq s stage ≡ false
    → any (λ t. str_eq s t) (stages ++ stage ∷ []) ≡ false
any-snoc s stage [] h e = ground arith
any-snoc s stage (t ∷ stages) h e = ground (arith, any-snoc s stage stages)

distinct-snoc :
    (stage : Stage) (stages : List Stage)
    → AreDistinct stages
    → any (λ t. str_eq stage t) stages ≡ false
    → AreDistinct (stages ++ stage ∷ [])
distinct-snoc stage [] h new = (refl, tt)
distinct-snoc stage (t ∷ stages) h new = (
  any-snoc t stage stages h.0 (ground (arith, eq_iff t stage, eq_iff stage t)),
  distinct-snoc stage stages h.1 (ground arith),
)

record_stage-AreReported :
    (e : Error) (stages : List Stage)
    → AreReported stages
    → length stages < 20
    → AreReported (record_stage e stages)
unfolding record_stage
record_stage-AreReported (sentinel s) stages h room = h
record_stage-AreReported (foreign text) stages h room = h
record_stage-AreReported (wrapped e) stages h room = h
record_stage-AreReported (joined es) stages h room = h
record_stage-AreReported (failure stage code cause) stages h room =
    elim (Bool-cases (defined_stage stage)) [
      | inr undefined ↦ rw undefined h
      | inl defined ↦ elim (Bool-cases (any (λ s. str_eq stage s) stages)) [
        | inl seen ↦ rw (defined, seen) h
        | inr new ↦
            rw (defined, new)
              (record {
                bounded = omega (arith, length-snoc stages stage);
                defined =
                    All-append (λ s. defined_stage s ≡ true) stages (stage ∷ []) h.defined
                      (defined, tt);
                distinct = distinct-snoc stage stages h.distinct new;
              })
      ]
    ]

stages_loop-AreReported :
    (n : ℕ) (queue : List Error) (stages : List Stage)
    → AreReported stages
    → AreReported (stages_loop n queue stages)
unfolding stages_loop
stages_loop-AreReported zero queue stages h = h
stages_loop-AreReported (suc n) [] stages h = h
stages_loop-AreReported (suc n) (e ∷ queue) stages h = elim (Bool-cases (ltb (length stages) 20)) [
  | inr full ↦ rw full h
  | inl room ↦ rw room (
      stages_loop-AreReported n (unwrap e ++ queue) (record_stage e stages)
        (record_stage-AreReported e stages h (ltb→lt _ _ room)))
]

-- Of any error, FailureStages returns at most 20 stages, every one a defined constant and no two
-- alike.
pub failure_stages-AreReported : (e : Option Error) → AreReported (failure_stages e)
unfolding failure_stages
failure_stages-AreReported none = record { bounded = omega arith; defined = tt; distinct = tt }
failure_stages-AreReported (some e) =
    stages_loop-AreReported 64 (e ∷ []) []
      (record { bounded = omega arith; defined = tt; distinct = tt })
