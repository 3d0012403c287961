-- ===== src/MysqlCopy/Executor/Redacted.antt =====
-- Every error that ExecuteDomain returns is redacted.
use runner.Prelude.{
  String, Bool, true, false, [], Option, none, some, Bool-cases, inl, inr, if◌then◌else◌,
}
use runner.Prelude.Bytes.{Bytes}
use runner.MysqlCopy.Plan.{Plan, validate, SourceIdentity, TargetIdentity, Proof, Receipt}
use runner.MysqlCopy.Failure.{Stage, unsafe, partial, operation, Error, sentinel, safe_failure}
use runner.MysqlCopy.Failure.Redaction.{safe_failure-IsRedacted}
use runner.MysqlCopy.Executor.Types.{
  CredentialCheck, distinct_credentials, validate_source, Result, ok, err,
}
use runner.MysqlCopy.Executor.Stream.{transfer_proof, target_proof}
use runner.MysqlCopy.Executor.{
  Transport, Run, Action, pure, fail, fail_safely, receipt_matches, valid_target, some_proof,
  transfer_stream, matches_proof, verify_target, copy, resume, inspected_or_partial, resume_or_copy,
  held_body, after_deferred, with_release, with_cleanup, body, redact_result, execute_domain,
}
use runner.MysqlCopy.Executor.Trusts.{
  TrustedError, TrustedResult, RedactedResult, redacted-IsTrusted, Trusts, pure-Trusts, fail-Trusts,
  call-Trusts, fail_safely-Trusts, or_fail-Trusts, bind-Trusts, set_stage-Trusts, require-Trusts,
  nil_or_fail-Trusts, gate-Trusts, fetch_credentials-Trusts, fetch_source-Trusts, check-Trusts,
}

module _ {W : Type 0} (t : Transport W) (sha256 : Bytes → Bytes) (p : Plan) where
  some_proof-Trusts : (o : Option Proof) → Trusts (some_proof t sha256 p o)
  unfolding some_proof
  some_proof-Trusts none = fail-Trusts unsafe
  some_proof-Trusts (some proof) = pure-Trusts proof

  sure-Trusts : (b : Bool) (e : Error) → Trusts {W = W} (if b then pure tt else fail_safely t e)
  sure-Trusts true e = pure-Trusts tt
  sure-Trusts false e = fail_safely-Trusts t e

  transfer_stream-Trusts :
      (source : SourceIdentity) (target : TargetIdentity)
      → Trusts (transfer_stream t sha256 p source target)
  unfolding transfer_stream
  transfer_stream-Trusts source target = bind-Trusts (call-Trusts _ _) λ x.
      bind-Trusts (sure-Trusts (transfer_proof sha256 p source x).0 (sentinel operation))
        λ _. some_proof-Trusts (transfer_proof sha256 p source x).1

  verify_target-Trusts :
      (target : TargetIdentity) (proof : Proof) → Trusts (verify_target t sha256 p target proof)
  unfolding verify_target
  verify_target-Trusts target proof = bind-Trusts (call-Trusts _ _) λ d.
      bind-Trusts (nil_or_fail-Trusts t (target_proof sha256 p d).0)
        λ _. require-Trusts (matches_proof t sha256 p proof (target_proof sha256 p d)) unsafe

  copy-Trusts :
      (digest : String) (c : CredentialCheck) (source : SourceIdentity)
      → Trusts (copy t sha256 p digest c source)
  unfolding copy
  copy-Trusts digest c source = bind-Trusts (set_stage-Trusts _) λ _.
      bind-Trusts (call-Trusts _ _) λ r. bind-Trusts (or_fail-Trusts t r) λ target.
        bind-Trusts (require-Trusts (valid_target p target) unsafe) λ _.
          bind-Trusts (set_stage-Trusts _) λ _. bind-Trusts (check-Trusts t p c source _) λ _.
            bind-Trusts (transfer_stream-Trusts source target) λ proof.
              bind-Trusts (set_stage-Trusts _) λ _. bind-Trusts (check-Trusts t p c source _) λ _.
                bind-Trusts (verify_target-Trusts target proof) λ _.
                  bind-Trusts (set_stage-Trusts _) λ _.
                    bind-Trusts (check-Trusts t p c source _) λ _.
                      bind-Trusts (set_stage-Trusts _) λ _. bind-Trusts (call-Trusts _ _) λ stopped.
                        bind-Trusts (nil_or_fail-Trusts t stopped) λ _.
                          bind-Trusts (set_stage-Trusts _) λ _.
                            bind-Trusts (check-Trusts t p c source _) λ _.
                              bind-Trusts (set_stage-Trusts _) λ _.
                                bind-Trusts (call-Trusts _ _) λ written.
                                  bind-Trusts (nil_or_fail-Trusts t written) λ _. pure-Trusts _

  resume-Trusts :
      (digest : String) (c : CredentialCheck) (source : SourceIdentity) (existing : Receipt)
      → Trusts (resume t sha256 p digest c source existing)
  unfolding resume
  resume-Trusts digest c source existing =
      bind-Trusts (require-Trusts (receipt_matches p digest source existing) partial) λ _.
        bind-Trusts (set_stage-Trusts _)
          λ _. bind-Trusts (check-Trusts t p c source _) λ _. pure-Trusts existing

  inspected-Trusts : (r : Result (Option Receipt)) → Trusts (inspected_or_partial t sha256 p r)
  unfolding inspected_or_partial
  inspected-Trusts (ok existing) = pure-Trusts existing
  inspected-Trusts (err e) = fail-Trusts partial

  resume_or_copy-Trusts :
      (digest : String) (c : CredentialCheck) (source : SourceIdentity) (existing : Option Receipt)
      → Trusts (resume_or_copy t sha256 p digest c source existing)
  unfolding resume_or_copy
  resume_or_copy-Trusts digest c source none = copy-Trusts digest c source
  resume_or_copy-Trusts digest c source (some existing) = resume-Trusts digest c source existing

  held_body-Trusts :
      (digest : String) (c : CredentialCheck) (source : SourceIdentity)
      → Trusts (held_body t sha256 p digest c source)
  unfolding held_body
  held_body-Trusts digest c source = bind-Trusts (set_stage-Trusts _) λ _.
      bind-Trusts (check-Trusts t p c source _) λ _. bind-Trusts (set_stage-Trusts _) λ _.
        bind-Trusts (call-Trusts _ _) λ reply.
          bind-Trusts (inspected-Trusts reply)
            λ existing. resume_or_copy-Trusts digest c source existing

-- A deferred call adds its own error, and both are redacted.
after_deferred-TrustedResult :
    {W : Type 0} (d : Stage) (r : Result Receipt × Run W) (e : Option Error)
    → TrustedResult r.0
    → TrustedError e
    → TrustedResult (after_deferred d r e).0
after_deferred-TrustedResult d (r, s) none h k = h
after_deferred-TrustedResult d (ok a, s) (some e) h k =
    (redacted-IsTrusted (safe_failure d e) (safe_failure-IsRedacted d e k), tt)
after_deferred-TrustedResult d (err primary, s) (some e) h k = (
  redacted-IsTrusted (safe_failure s.stage primary) (safe_failure-IsRedacted s.stage primary h),
  (redacted-IsTrusted (safe_failure d e) (safe_failure-IsRedacted d e k), tt),
)

redact_result-RedactedResult :
    {W : Type 0} (r : Result Receipt × Run W)
    → TrustedResult r.0
    → RedactedResult (redact_result r).0
redact_result-RedactedResult (ok a, s) h = tt
redact_result-RedactedResult (err e, s) h = safe_failure-IsRedacted s.stage e h

module _ {W : Type 0} (t : Transport W) (sha256 : Bytes → Bytes) (p : Plan) where
  with_release-Trusts :
      (m : Action W Receipt)
      → ((w : W) → TrustedError (t.hold_release w).0)
      → Trusts m
      → Trusts (with_release t m)
  unfolding with_release
  with_release-Trusts m releases h = record {
    trusts = λ s.
        after_deferred-TrustedResult "release_ddl" (_, _) (t.hold_release (m s).1.world).0
          (h.trusts s) (releases (m s).1.world);
  }

  with_cleanup-Trusts :
      (m : Action W Receipt)
      → ((w : W) → TrustedError (t.cleanup p w).0)
      → Trusts m
      → Trusts (with_cleanup t p m)
  unfolding with_cleanup
  with_cleanup-Trusts m cleans h = record {
    trusts = λ s.
        after_deferred-TrustedResult "cleanup_helpers" (_, _) (t.cleanup p (m s).1.world).0
          (h.trusts s) (cleans (m s).1.world);
  }

  body-Trusts :
      (digest : String)
      → ((w : W) → TrustedError (t.hold_release w).0)
      → Trusts (body t sha256 p digest)
  unfolding body
  body-Trusts digest releases = bind-Trusts (set_stage-Trusts _) λ _.
      bind-Trusts (gate-Trusts t p _) λ _. bind-Trusts (set_stage-Trusts _) λ _.
        bind-Trusts (fetch_credentials-Trusts t p) λ c.
          bind-Trusts (require-Trusts (distinct_credentials p c) unsafe) λ _.
            bind-Trusts (set_stage-Trusts _) λ _. bind-Trusts (fetch_source-Trusts t p) λ source.
              bind-Trusts (require-Trusts (validate_source p source) unsafe) λ _.
                bind-Trusts (set_stage-Trusts _) λ _. bind-Trusts (gate-Trusts t p _) λ _.
                  bind-Trusts (call-Trusts _ _) λ taken.
                    bind-Trusts (require-Trusts taken unsafe) λ _.
                      with_release-Trusts _ releases (held_body-Trusts t sha256 p digest c source)

  -- Whatever the transport returns and wherever a run of ExecuteDomain fails, the error that comes
  -- out is a tree of constants: each leaf a defined stage, one of the five codes and its sentinel;
  -- no text of the transport is in it, joined errors of the release and the cleanup included. Where
  -- the errors of the release and of the cleanup hold failures, these must be safeFailure's own.
  pub execute_domain-RedactedResult :
      (digest : String) (w : W)
      → ((x : W) → TrustedError (t.hold_release x).0)
      → ((x : W) → TrustedError (t.cleanup p x).0)
      → RedactedResult (execute_domain t sha256 p digest w).0
  unfolding execute_domain fail
  execute_domain-RedactedResult digest w releases cleans =
      let start : Run W = record { world = w; stage = "validate_plan"; trace = [] } in
      elim (Bool-cases (validate p)) [
        | inl valid ↦ rw valid (
            redact_result-RedactedResult (with_cleanup t p (body t sha256 p digest) start) (
              (with_cleanup-Trusts (body t sha256 p digest) cleans
                  (body-Trusts digest releases)).trusts
                start))
        | inr invalid ↦ rw invalid (safe_failure-IsRedacted "validate_plan" (sentinel unsafe) tt)
      ]
