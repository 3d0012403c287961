-- ===== src/MysqlCopy/Executor/Trusts.antt =====
-- The errors that the steps of ExecuteDomain return.
use mathlib.Core.Path.{subst}
use runner.Prelude.{Bool, true, false, ◌&&◌, Option, none, some, ◌≡◌, sym, Option-cases, inl, inr}
use runner.MysqlCopy.Plan.{Plan, SourceIdentity}
use runner.MysqlCopy.Failure.{
  Stage, Sentinel, unsafe, Error, sentinel, foreign, wrapped, joined, failure, Errors, nil, cons,
}
use runner.MysqlCopy.Failure.Redaction.{IsRedacted, AllRedacted, IsTrusted, AllTrusted}
use runner.MysqlCopy.Executor.Types.{
  CredentialCheck, same_credentials, validate_source, same_identity, Result, ok, err,
}
use runner.MysqlCopy.Executor.{
  Transport, Event, Run, Action, pure, fail, continue, ◌>>=◌, set_stage, require, call,
  kept_sentinel, fail_safely, or_fail, nil_or_fail, gate, fetch_credentials, fetch_source, check,
  authorized,
}
use runner.MysqlCopy.Executor.Protocol.{stopped_equation, kept_equation}
use runner.MysqlCopy.Executor.Steps.{gate_stopped, gate_asks}

-- An error of the transport that carries no failure but safeFailure's own.
abbrev pub TrustedError : Option Error → Type 0
TrustedError none = Unit
TrustedError (some e) = IsTrusted e

abbrev pub TrustedResult : {A : Type 0} → Result A → Type 0
TrustedResult (ok a) = Unit
TrustedResult (err e) = IsTrusted e

abbrev pub RedactedResult : {A : Type 0} → Result A → Type 0
RedactedResult (ok a) = Unit
RedactedResult (err e) = IsRedacted e

mutual
  pub redacted-IsTrusted : (e : Error) → IsRedacted e → IsTrusted e
  redacted-IsTrusted (sentinel s) h = tt
  redacted-IsTrusted (foreign text) h = tt
  redacted-IsTrusted (wrapped e) h = elim h [ ]
  redacted-IsTrusted (joined es) h = redacted-AllTrusted es h
  redacted-IsTrusted (failure stage code cause) h = h

  redacted-AllTrusted : (es : Errors) → AllRedacted es → AllTrusted es
  redacted-AllTrusted nil h = tt
  redacted-AllTrusted (cons e es) h = (redacted-IsTrusted e h.0, redacted-AllTrusted es h.1)

-- An action whose errors carry no failure but safeFailure's own.
pub record Trusts {W A : Type 0} (m : Action W A) : Type 0 where
  pub trusts : (s : Run W) → TrustedResult (m s).0

module _ {W A : Type 0} where
  pub pure-Trusts : (a : A) → Trusts {W = W} (pure a)
  unfolding pure
  pure-Trusts a = record { trusts = λ s. tt }

  pub fail-Trusts : (e : Sentinel) → Trusts {W = W} {A = A} (fail e)
  unfolding fail
  fail-Trusts e = record { trusts = λ s. tt }

  pub call-Trusts : (f : W → A × W) (event : A → Event) → Trusts (call f event)
  unfolding call
  call-Trusts f event = record { trusts = λ s. tt }

  same-Trusts :
      (m : Action W A) → ((s : Run W) → (n : Action W A) × Trusts n × (m s ≡ n s)) → Trusts m
  same-Trusts m each = record {
    trusts = λ s. subst (λ r. TrustedResult r.0) (sym (each s).2) ((each s).1.trusts s);
  }

  pub fail_safely-Trusts : (t : Transport W) (e : Error) → Trusts {A = A} (fail_safely t e)
  fail_safely-Trusts t e = same-Trusts (fail_safely t e) λ s.
      elim (Option-cases (t.ctx_err s.world)) [
        | inl going ↦
            (fail (kept_sentinel e), fail-Trusts (kept_sentinel e), kept_equation t e s going)
        | inr (c, stopped) ↦ (fail c, fail-Trusts c, stopped_equation t e s c stopped)
      ]

  pub or_fail-Trusts : (t : Transport W) (r : Result A) → Trusts (or_fail t r)
  unfolding or_fail
  or_fail-Trusts t (ok a) = pure-Trusts a
  or_fail-Trusts t (err e) = fail_safely-Trusts t e

module _ {W A B : Type 0} where
  continue-TrustedResult :
      (r : Result A × Run W) (f : A → Action W B)
      → TrustedResult r.0
      → ((a : A) → Trusts (f a))
      → TrustedResult (continue r.0 f r.1).0
  continue-TrustedResult (ok a, s) f h k = (k a).trusts s
  continue-TrustedResult (err e, s) f h k = h

  pub bind-Trusts :
      {m : Action W A} {f : A → Action W B} → Trusts m → ((a : A) → Trusts (f a)) → Trusts (m >>= f)
  unfolding ◌>>=◌
  bind-Trusts {m = m} {f = f} h k = record {
    trusts = λ s. continue-TrustedResult (m s) f (h.trusts s) k;
  }

module _ {W : Type 0} where
  pub set_stage-Trusts : (stage : Stage) → Trusts {W = W} (set_stage stage)
  unfolding set_stage
  set_stage-Trusts stage = record { trusts = λ s. tt }

  pub require-Trusts : (b : Bool) (e : Sentinel) → Trusts {W = W} (require b e)
  unfolding require
  require-Trusts true e = pure-Trusts tt
  require-Trusts false e = fail-Trusts e

module _ {W : Type 0} (t : Transport W) where
  pub nil_or_fail-Trusts : (e : Option Error) → Trusts (nil_or_fail t e)
  unfolding nil_or_fail
  nil_or_fail-Trusts none = pure-Trusts tt
  nil_or_fail-Trusts (some e) = fail_safely-Trusts t e

module _ {W : Type 0} (t : Transport W) (p : Plan) where
  pub gate-Trusts : (stage : Stage) → Trusts (gate t p stage)
  gate-Trusts stage = same-Trusts (gate t p stage) λ s. elim (Option-cases (t.ctx_err s.world)) [
    | inl going ↦ (
      _,
      bind-Trusts (call-Trusts (t.authority p stage) (authorized stage))
          (λ allowed. require-Trusts allowed unsafe),
      gate_asks t p stage s going,
    )
    | inr (c, stopped) ↦ (fail c, fail-Trusts c, gate_stopped t p stage s c stopped)
  ]

  pub fetch_credentials-Trusts : Trusts (fetch_credentials t p)
  unfolding fetch_credentials
  fetch_credentials-Trusts = bind-Trusts (call-Trusts _ _) λ r. or_fail-Trusts t r

  pub fetch_source-Trusts : Trusts (fetch_source t p)
  unfolding fetch_source
  fetch_source-Trusts = bind-Trusts (call-Trusts _ _) λ r. or_fail-Trusts t r

  pub check-Trusts :
      (c : CredentialCheck) (source : SourceIdentity) (stage : Stage)
      → Trusts (check t p c source stage)
  unfolding check
  check-Trusts c source stage = bind-Trusts (gate-Trusts stage) λ _.
      bind-Trusts (call-Trusts _ _) λ held. bind-Trusts (require-Trusts held unsafe) λ _.
        bind-Trusts fetch_credentials-Trusts λ again.
          bind-Trusts (require-Trusts (same_credentials again c) unsafe) λ _.
            bind-Trusts fetch_source-Trusts
              λ fresh. require-Trusts (validate_source p fresh && same_identity source fresh) unsafe
