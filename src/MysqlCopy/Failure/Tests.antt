-- ===== src/MysqlCopy/Failure/Tests.antt =====
-- Witnesses and tests of the diagnostics.
use runner.Prelude.{true, some, ◌≡◌, refl, str_eq, any}
use runner.MysqlCopy.Failure.{
  Sentinel, unsafe, partial, Error, sentinel, foreign, wrapped, joined, failure, nil, cons,
  as_failure, safe_cause, safe_failure, defined_stage,
}
use runner.MysqlCopy.Failure.Redaction.{
  IsRedacted, IsTrusted, IsPlain, safe_failure-IsRedacted, safe_cause-safe_failure,
}
use runner.MysqlCopy.Failure.Walk.{
  codes_known, failure_info, failure_stages, AreReported, failure_info-IsConstant,
  failure_stages-AreReported,
}

-- A step's error: a foreign text and a wrapped sentinel, beside an error already redacted.
abbrev leaky : Error
leaky = joined (
    cons (foreign "password=secret") (
      cons (wrapped (sentinel partial))
        (cons (failure "transfer" "safety_refusal" (sentinel unsafe)) nil)))

leaky_redacted :
    safe_failure "verify" leaky
    ≡ joined (
        cons (failure "verify" "operation_failed" (sentinel Sentinel.operation)) (
          cons
            (failure "verify" "partial_target" (sentinel partial))
            (cons (failure "transfer" "safety_refusal" (sentinel unsafe)) nil)))
unfolding safe_failure
leaky_redacted = refl

leaky-IsTrusted : IsTrusted leaky
unfolding defined_stage
leaky-IsTrusted = (tt, (tt, ((refl, refl), tt)))

leaky-IsPlain : IsPlain leaky
unfolding as_failure
leaky-IsPlain = (tt, (refl, (tt, tt)))

safe_failure-IsRedacted_example : IsRedacted (safe_failure "verify" leaky)
safe_failure-IsRedacted_example = safe_failure-IsRedacted "verify" leaky leaky-IsTrusted

safe_cause-safe_failure_example : safe_cause (safe_failure "verify" leaky) ≡ safe_cause leaky
safe_cause-safe_failure_example = safe_cause-safe_failure "verify" leaky leaky-IsPlain

failure_info-IsConstant_example :
    (defined_stage (failure_info (some leaky)).0 ≡ true)
    × (any (λ c. str_eq (failure_info (some leaky)).1 c) codes_known ≡ true)
failure_info-IsConstant_example = failure_info-IsConstant leaky

failure_stages-AreReported_example : AreReported (failure_stages (some leaky))
failure_stages-AreReported_example = failure_stages-AreReported (some leaky)
