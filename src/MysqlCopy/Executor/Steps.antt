-- ===== src/MysqlCopy/Executor/Steps.antt =====
-- The steps of ExecuteDomain under the automaton: gates, checks, fetches, the transfer.
use runner.Prelude.{
  Bool, true, false, ◌&&◌, Option, none, some, ◌≡◌, refl, sym, ◌∙◌, Option-cases, inl, inr,
  if◌then◌else◌,
}
use runner.Prelude.Bytes.{Bytes}
use runner.MysqlCopy.Plan.{Plan, SourceIdentity, TargetIdentity, Proof}
use runner.MysqlCopy.Failure.{Stage, Sentinel, unsafe, operation, Error, sentinel}
use runner.MysqlCopy.Executor.Types.{
  CredentialCheck, same_credentials, validate_source, same_identity, Result, ok, err,
}
use runner.MysqlCopy.Executor.Stream.{transfer_proof}
use runner.MysqlCopy.Executor.{
  Transport, Event, authorized, credentials_checked, source_read, hold_checked, Run, Action, pure,
  fail, ◌>>=◌, require, call, fail_safely, or_fail, nil_or_fail, gate, fetch_credentials,
  fetch_source, check, some_proof, transfer_stream, is_ok, is_nil, is_some,
}
use runner.MysqlCopy.Executor.Protocol.{
  Phase, target_made, data_moved, zone, reading, if_held, pick, advance, Triple, Triple-pure,
  Triple-fail, Triple-call, Triple-fail_safely, Triple-bind, Triple-require, Triple-on,
}

-- A phase in which reads are allowed, and one inside the hold.
abbrev pub Reads : Phase → Type 0
Reads ph = reading ph ≡ some ph

abbrev pub Holds : Phase → Type 0
Holds ph = if_held ph ph ≡ some ph

module _ {W : Type 0} (t : Transport W) (p : Plan) where
  ask :
      (ph : Phase) (stage : Stage)
      → Reads ph
      → Triple ph
          (λ _. ph)
          (call (t.authority p stage) (authorized stage) >>= λ allowed. require allowed unsafe)
  ask ph stage h =
      Triple-bind ph (λ _. ph) (λ _. ph) _ _
        (Triple-call ph (λ _. ph) (t.authority p stage) (authorized stage) (λ _. h))
        (λ allowed. Triple-require ph allowed unsafe) (λ _. refl)

  pub gate_stopped :
      (stage : Stage) (s : Run W) (c : Sentinel)
      → t.ctx_err s.world ≡ some c
      → gate t p stage s ≡ fail c s
  unfolding gate
  gate_stopped stage s c h = rw (h, gate) refl

  pub gate_asks :
      (stage : Stage) (s : Run W)
      → t.ctx_err s.world ≡ none
      → gate t p stage s
        ≡ (call (t.authority p stage) (authorized stage) >>= λ allowed. require allowed unsafe) s
  unfolding gate
  gate_asks stage s h = rw (h, gate) refl

  pub Triple-gate : (ph : Phase) (stage : Stage) → Reads ph → Triple ph (λ _. ph) (gate t p stage)
  Triple-gate ph stage h =
      Triple-on ph (λ _. ph) (gate t p stage)
        λ s. elim (Option-cases (t.ctx_err s.world)) [
          | inl going ↦ (_, ask ph stage h, gate_asks stage s going)
          | inr (c, stopped) ↦ (fail c, Triple-fail ph (λ _. ph) c, gate_stopped stage s c stopped)
        ]

  pub Triple-or_fail : {A : Type 0} (ph : Phase) (r : Result A) → Triple ph (λ _. ph) (or_fail t r)
  unfolding or_fail
  Triple-or_fail ph (ok a) = Triple-pure ph a
  Triple-or_fail ph (err e) = Triple-fail_safely t ph (λ _. ph) e

  pub Triple-nil_or_fail : (ph : Phase) (r : Option Error) → Triple ph (λ _. ph) (nil_or_fail t r)
  unfolding nil_or_fail
  Triple-nil_or_fail ph none = Triple-pure ph tt
  Triple-nil_or_fail ph (some e) = Triple-fail_safely t ph (λ _. ph) e

  pub Triple-fetch_credentials :
      (ph : Phase) → Reads ph → Triple ph (λ _. ph) (fetch_credentials t p)
  unfolding fetch_credentials
  Triple-fetch_credentials ph h =
      Triple-bind ph (λ _. ph) (λ _. ph) _ _
        (Triple-call ph (λ _. ph) (t.check_credentials p) (λ r. credentials_checked (is_ok r))
          (λ _. h))
        (λ r. Triple-or_fail ph r) (λ _. refl)

  pub Triple-fetch_source : (ph : Phase) → Reads ph → Triple ph (λ _. ph) (fetch_source t p)
  unfolding fetch_source
  Triple-fetch_source ph h =
      Triple-bind ph (λ _. ph) (λ _. ph) _ _
        (Triple-call ph (λ _. ph) (t.source p) (λ r. source_read (is_ok r)) (λ _. h))
        (λ r. Triple-or_fail ph r) (λ _. refl)

-- One step that stays in its phase, then the rest.
pub Triple-stay :
    {W A B : Type 0} (ph : Phase) (R : B → Phase) (m : Action W A) (f : A → Action W B)
    → Triple ph (λ _. ph) m
    → ((a : A) → Triple ph R (f a))
    → Triple ph R (m >>= f)
Triple-stay ph R m f km kf = Triple-bind ph (λ _. ph) R m f km kf (λ _. refl)

module _ {W : Type 0} (t : Transport W) (p : Plan) where
  pub Triple-check :
      (ph : Phase) (c : CredentialCheck) (source : SourceIdentity) (stage : Stage)
      → Reads ph
      → Holds ph
      → Triple ph (λ _. ph) (check t p c source stage)
  unfolding check
  Triple-check ph c source stage h k = Triple-stay ph _ _ _ (Triple-gate t p ph stage h) λ _.
      Triple-stay ph _ _ _ (Triple-call ph (λ _. ph) t.hold_check hold_checked (λ _. k)) λ held.
        Triple-stay ph _ _ _ (Triple-require ph held unsafe) λ _.
          Triple-stay ph _ _ _ (Triple-fetch_credentials t p ph h) λ fresh_credentials.
            Triple-stay ph _ _ _ (Triple-require ph (same_credentials fresh_credentials c) unsafe)
              λ _. Triple-stay ph _ _ _ (Triple-fetch_source t p ph h) λ again.
                Triple-require ph (validate_source p again && same_identity source again) unsafe

-- The phase behind an event that moves on if it succeeds, and the tests of its outcome.
abbrev pub moved : Bool → Phase → Phase → Phase
moved true here there = there
moved false here there = here

pub pick_lem : (b : Bool) (here there : Phase) → pick b here there ≡ some (moved b here there)
pick_lem true here there = refl
pick_lem false here there = refl

moved-zone :
    (b : Bool) (here there : Phase) → zone there ≡ zone here → zone (moved b here there) ≡ zone here
moved-zone true here there h = h
moved-zone false here there h = refl

module _ {W : Type 0} (t : Transport W) (here there : Phase) where
  pub reached-or_fail :
      {A : Type 0} (r : Result A) → Triple (moved (is_ok r) here there) (λ _. there) (or_fail t r)
  unfolding or_fail
  reached-or_fail (ok a) = Triple-pure there a
  reached-or_fail (err e) = Triple-fail_safely t here (λ _. there) e

  pub reached-nil_or_fail :
      (r : Option Error) → Triple (moved (is_nil r) here there) (λ _. there) (nil_or_fail t r)
  unfolding nil_or_fail
  reached-nil_or_fail none = Triple-pure there tt
  reached-nil_or_fail (some e) = Triple-fail_safely t here (λ _. there) e

-- A call that moves on if it succeeds, then the rest, which tests its outcome first.
pub Triple-move :
    {W A B : Type 0} (here there : Phase) (R : B → Phase) (f : W → A × W) (event : A → Event)
    (g : A → Bool) (k : A → Action W B)
    → ((a : A) → advance (event a) here ≡ some (moved (g a) here there))
    → zone there ≡ zone here
    → ((a : A) → Triple (moved (g a) here there) R (k a))
    → Triple here R (call f event >>= k)
Triple-move here there R f event g k allowed same rest =
    Triple-bind here (λ a. moved (g a) here there) R _ _
      (Triple-call here (λ a. moved (g a) here there) f event allowed) rest
      (λ a. moved-zone (g a) here there same)

-- A test behind such a call, then the rest in the phase reached.
pub Triple-reached :
    {W A B : Type 0} (b : Bool) (here there : Phase) (R : B → Phase) (m : Action W A)
    (k : A → Action W B)
    → Triple (moved b here there) (λ _. there) m
    → zone there ≡ zone here
    → ((a : A) → Triple there R (k a))
    → Triple (moved b here there) R (m >>= k)
Triple-reached b here there R m k done same rest =
    Triple-bind (moved b here there) (λ _. there) R m k done rest
      (λ _. same ∙ sym (moved-zone b here there same))

module _ {W : Type 0} (t : Transport W) (sha256 : Bytes → Bytes) (p : Plan) where
  reached-some_proof :
      (here there : Phase) (o : Option Proof)
      → Triple (moved (is_some o) here there) (λ _. there) (some_proof t sha256 p o)
  unfolding some_proof
  reached-some_proof here there none = Triple-fail here (λ _. there) unsafe
  reached-some_proof here there (some proof) = Triple-pure there proof

  Triple-sure :
      (ph : Phase) (b : Bool) (e : Error)
      → Triple {W = W} ph (λ _. ph) (if b then pure tt else fail_safely t e)
  Triple-sure ph true e = Triple-pure ph tt
  Triple-sure ph false e = Triple-fail_safely t ph (λ _. ph) e

  pub Triple-transfer_stream :
      (source : SourceIdentity) (target : TargetIdentity)
      → Triple target_made (λ _. data_moved) (transfer_stream t sha256 p source target)
  unfolding transfer_stream
  Triple-transfer_stream source target =
      Triple-move target_made data_moved _ _ _ (λ x. is_some (transfer_proof sha256 p source x).1) _
        (λ x. pick_lem (is_some (transfer_proof sha256 p source x).1) target_made data_moved) refl
        λ x.
          Triple-stay _ _ _ _
            (Triple-sure _ (transfer_proof sha256 p source x).0 (sentinel operation))
            λ _. reached-some_proof target_made data_moved (transfer_proof sha256 p source x).1
