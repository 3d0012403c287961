-- ===== src/MysqlCopy/Executor/Follows.antt =====
-- Every run of ExecuteDomain follows the automaton to its end.
use runner.Prelude.{
  ℕ, String, Bool, true, false, [], ◌∷◌, Option, none, some, ◌≡◌, refl, ap, ◌∙◌, arith, Bool-cases,
  ◌⊎◌, inl, inr,
}
use runner.Prelude.Bytes.{Bytes}
use runner.MysqlCopy.Plan.{Plan, validate, SourceIdentity, Receipt}
use runner.MysqlCopy.Failure.{Stage, unsafe, partial, Error}
use runner.MysqlCopy.Executor.Types.{
  CredentialCheck, distinct_credentials, validate_source, Result, ok, err,
}
use runner.MysqlCopy.Executor.{
  Transport, hold_taken, inspected, released, cleaned, Run, Action, pure, fail, ◌>>=◌, require,
  call, continue, inspected_or_partial, resume_or_copy, held_body, with_release, with_cleanup, body,
  execute_domain, is_ok, is_nil, after_deferred, redact_result,
}
use runner.MysqlCopy.Executor.Protocol.{
  Phase, fresh, locked, receipt_written, unlocked, over, zone, if_held, advance, advance?, phase_of,
  Post, Triple, Triple-pure, Triple-fail, Triple-call, Triple-set_stage, Triple-require,
}
use runner.MysqlCopy.Executor.Steps.{
  Triple-gate, Triple-fetch_credentials, Triple-fetch_source, Triple-check, moved, pick_lem,
}
use runner.MysqlCopy.Executor.Copying.{Triple-copy, Triple-resume}

-- The run has ended in a phase of the zone.
abbrev Within : {A W : Type 0} → ℕ → Result A × Run W → Type 0
Within z r = (ph : Phase) × (phase_of r.1.trace ≡ some ph) × (zone ph ≡ z)

Post-Within :
    {A W : Type 0} (Q : A → Phase) (z : ℕ) (r : Result A × Run W)
    → ((a : A) → zone (Q a) ≡ z)
    → Post Q z r
    → Within z r
Post-Within Q z (ok a, s) same h = (Q a, h, same a)
Post-Within Q z (err e, s) same h = h

record Ends {W A : Type 0} (ph : Phase) (z : ℕ) (m : Action W A) : Type 0 where
  ends : (s : Run W) → phase_of s.trace ≡ some ph → Within z (m s)

Triple-Ends :
    {W A : Type 0} (ph there : Phase) (m : Action W A)
    → Triple ph (λ _. there) m
    → zone there ≡ zone ph
    → Ends ph (zone ph) m
Triple-Ends ph there m k same = record {
  ends = λ s h. Post-Within (λ _. there) (zone ph) (m s) (λ _. same) (k.run s h);
}

continue-Within :
    {W A B : Type 0} (ph : Phase) (f : A → Action W B)
    → ((a : A) → Ends ph (zone ph) (f a))
    → (r : Result A × Run W) → Post (λ _. ph) (zone ph) r
    → Within (zone ph) (continue r.0 f r.1)
continue-Within ph f k (ok a, s) h = (k a).ends s h
continue-Within ph f k (err e, s) h = h

Ends-stay :
    {W A B : Type 0} (ph : Phase) (m : Action W A) (f : A → Action W B)
    → Triple ph (λ _. ph) m
    → ((a : A) → Ends ph (zone ph) (f a))
    → Ends ph (zone ph) (m >>= f)
unfolding ◌>>=◌
Ends-stay ph m f km kf = record { ends = λ s h. continue-Within ph f kf (m s) (km.run s h) }

module _ {W : Type 0} (t : Transport W) (sha256 : Bytes → Bytes) (p : Plan) where
  Ends-resume_or_copy :
      (digest : String) (c : CredentialCheck) (source : SourceIdentity) (existing : Option Receipt)
      → Ends locked 1 (resume_or_copy t sha256 p digest c source existing)
  unfolding resume_or_copy
  Ends-resume_or_copy digest c source none =
      Triple-Ends locked receipt_written _ (Triple-copy t sha256 p digest c source) refl
  Ends-resume_or_copy digest c source (some existing) =
      Triple-Ends locked locked _ (Triple-resume t sha256 p digest c source existing) refl

  Triple-inspected :
      (r : Result (Option Receipt))
      → Triple locked (λ _. locked) (inspected_or_partial t sha256 p r)
  unfolding inspected_or_partial
  Triple-inspected (ok existing) = Triple-pure locked existing
  Triple-inspected (err e) = Triple-fail locked (λ _. locked) partial

  Ends-held_body :
      (digest : String) (c : CredentialCheck) (source : SourceIdentity)
      → Ends locked 1 (held_body t sha256 p digest c source)
  unfolding held_body
  Ends-held_body digest c source = Ends-stay locked _ _ (Triple-set_stage locked _) λ _.
      Ends-stay locked _ _ (Triple-check t p locked c source _ refl refl) λ _.
        Ends-stay locked _ _ (Triple-set_stage locked _) λ _.
          Ends-stay locked _ _
            (Triple-call locked (λ _. locked) (t.inspect p) (λ r. inspected (is_ok r)) (λ _. refl))
            λ reply.
              Ends-stay locked _ _ (Triple-inspected reply)
                λ existing. Ends-resume_or_copy digest c source existing

-- A deferred call is made after every outcome.
after_deferred-run :
    {W : Type 0} (d : Stage) (r : Result Receipt × Run W) (e : Option Error)
    → (after_deferred d r e).1 ≡ r.1
after_deferred-run d (r, s) none = refl
after_deferred-run d (r, s) (some e) = refl

inside-releases : (ph : Phase) → zone ph ≡ 1 → if_held unlocked ph ≡ some unlocked
inside-releases ph h = ground arith

outside-cleans : (ph : Phase) (b : Bool) → zone ph ≡ 0 → advance (cleaned b) ph ≡ some over
outside-cleans ph b h = ground arith

module _ {W : Type 0} (t : Transport W) where
  Ends-with_release :
      (m : Action W Receipt)
      → Ends locked 1 m
      → (s : Run W) → phase_of s.trace ≡ some locked
      → phase_of (with_release t m s).1.trace ≡ some unlocked
  unfolding with_release
  Ends-with_release m k s h =
      let (e, w) = t.hold_release (m s).1.world in
      ap (λ (x : Run W). phase_of x.trace)
        (after_deferred-run "release_ddl"
          ((m s).0, record (m s).1 { world = w; trace = released (is_nil e) ∷ (m s).1.trace }) e)
      ∙ ap (advance? (released (is_nil e))) (k.ends s h).1
      ∙ inside-releases (k.ends s h).0 (k.ends s h).2

  Ends-held :
      (m : Action W Receipt) (b : Bool)
      → Ends locked 1 m
      → (s : Run W) → phase_of s.trace ≡ some (moved b fresh locked)
      → Within 0 ((require b unsafe >>= λ _. with_release t m) s)
  unfolding ◌>>=◌ require pure fail
  Ends-held m true k s h = (unlocked, Ends-with_release m k s h, refl)
  Ends-held m false k s h = (fresh, h, refl)

  Ends-hold :
      (p : Plan) (m : Action W Receipt)
      → Ends locked 1 m
      → Ends fresh 0 (
          call (t.hold_ddl p) hold_taken >>= λ taken.
          require taken unsafe >>= λ _. with_release t m)
  unfolding ◌>>=◌ call
  Ends-hold p m k = record {
    ends = λ s h. Ends-held m (t.hold_ddl p s.world).0 k _ (
        ap (advance? (hold_taken (t.hold_ddl p s.world).0)) h
        ∙ pick_lem (t.hold_ddl p s.world).0 fresh locked);
  }

module _ {W : Type 0} (t : Transport W) (sha256 : Bytes → Bytes) (p : Plan) where
  Ends-body : (digest : String) → Ends fresh 0 (body t sha256 p digest)
  unfolding body
  Ends-body digest = Ends-stay fresh _ _ (Triple-set_stage fresh _) λ _.
      Ends-stay fresh _ _ (Triple-gate t p fresh _ refl) λ _.
        Ends-stay fresh _ _ (Triple-set_stage fresh _) λ _.
          Ends-stay fresh _ _ (Triple-fetch_credentials t p fresh refl) λ c.
            Ends-stay fresh _ _ (Triple-require fresh (distinct_credentials p c) unsafe) λ _.
              Ends-stay fresh _ _ (Triple-set_stage fresh _) λ _.
                Ends-stay fresh _ _ (Triple-fetch_source t p fresh refl) λ source.
                  Ends-stay fresh _ _ (Triple-require fresh (validate_source p source) unsafe) λ _.
                    Ends-stay fresh _ _ (Triple-set_stage fresh _) λ _.
                      Ends-stay fresh _ _ (Triple-gate t p fresh _ refl)
                        λ _. Ends-hold t p _ (Ends-held_body t sha256 p digest c source)

  Ends-with_cleanup :
      (m : Action W Receipt)
      → Ends fresh 0 m
      → (s : Run W) → phase_of s.trace ≡ some fresh
      → phase_of (with_cleanup t p m s).1.trace ≡ some over
  unfolding with_cleanup
  Ends-with_cleanup m k s h =
      let (e, w) = t.cleanup p (m s).1.world in
      ap (λ (x : Run W). phase_of x.trace)
        (after_deferred-run "cleanup_helpers"
          ((m s).0, record (m s).1 { world = w; trace = cleaned (is_nil e) ∷ (m s).1.trace }) e)
      ∙ ap (advance? (cleaned (is_nil e))) (k.ends s h).1
      ∙ outside-cleans (k.ends s h).0 (is_nil e) (k.ends s h).2

  redact_result-run : (r : Result Receipt × Run W) → (redact_result r).1 ≡ r.1
  redact_result-run (ok a, s) = refl
  redact_result-run (err e, s) = refl

  -- Whatever the transport does, a run of ExecuteDomain on a valid plan makes its calls in an
  -- order that the automaton allows and ends behind its last phase: a taken DDL hold is released
  -- exactly once, after everything done under it and before the one Cleanup, which is the last
  -- call; no target is made, written, verified, stopped or given a receipt outside the hold, nor
  -- before the step ahead of it has succeeded. On an invalid plan no call is made.
  pub execute_domain-follows :
      (digest : String) (w : W)
      → ((validate p ≡ true) × (phase_of (execute_domain t sha256 p digest w).1.trace ≡ some over))
        ⊎ ((validate p ≡ false) × ((execute_domain t sha256 p digest w).1.trace ≡ []))
  unfolding execute_domain fail
  execute_domain-follows digest w =
      let start : Run W = record { world = w; stage = "validate_plan"; trace = [] } in
      elim (Bool-cases (validate p)) [
        | inl valid ↦ inl (
          valid,
          rw valid (
              ap (λ (x : Run W). phase_of x.trace)
                (redact_result-run (with_cleanup t p (body t sha256 p digest) start))
              ∙ Ends-with_cleanup (body t sha256 p digest) (Ends-body digest) start refl),
        )
        | inr invalid ↦ inr (invalid, rw invalid refl)
      ]
