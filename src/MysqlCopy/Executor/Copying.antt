-- ===== src/MysqlCopy/Executor/Copying.antt =====
-- The copy and the resumption of ExecuteDomain under the automaton.
use runner.Prelude.{String, Bool, true, false, Option, none, some, ◌≡◌, refl}
use runner.Prelude.Bytes.{Bytes}
use runner.MysqlCopy.Plan.{Plan, SourceIdentity, TargetIdentity, Proof, Receipt}
use runner.MysqlCopy.Failure.{Sentinel, unsafe, partial, Error}
use runner.MysqlCopy.Executor.Types.{CredentialCheck, same_proof}
use runner.MysqlCopy.Executor.Stream.{target_proof}
use runner.MysqlCopy.Executor.{
  matches_proof, valid_target, receipt_matches, Transport, Action, ◌>>=◌, require, nil_or_fail,
  verify_target, copy, resume, is_ok, is_nil,
}
use runner.MysqlCopy.Executor.Protocol.{
  Phase, locked, target_made, data_moved, data_matched, target_stopped, receipt_written, zone,
  Triple, Triple-pure, Triple-fail, Triple-fail_safely, Triple-bind, Triple-set_stage,
  Triple-require,
}
use runner.MysqlCopy.Executor.Steps.{
  Triple-stay, Triple-check, moved, pick_lem, reached-or_fail, reached-nil_or_fail, Triple-move,
  Triple-reached, Triple-transfer_stream,
}

reached-require :
    {W : Type 0} (here there : Phase) (b : Bool) (e : Sentinel)
    → Triple {W = W} (moved b here there) (λ _. there) (require b e)
unfolding require
reached-require here there true e = Triple-pure there tt
reached-require here there false e = Triple-fail here (λ _. there) e

Triple-then :
    {W A B : Type 0} (here there : Phase) (R : B → Phase) (m : Action W A) (f : A → Action W B)
    → Triple here (λ _. there) m
    → zone there ≡ zone here
    → ((a : A) → Triple there R (f a))
    → Triple here R (m >>= f)
Triple-then here there R m f km same kf = Triple-bind here (λ _. there) R m f km kf (λ _. same)

module _ {W : Type 0} (t : Transport W) (sha256 : Bytes → Bytes) (p : Plan) where
  reached-matches :
      (proof : Proof) (r : Option Error × Option Proof)
      → Triple
          (moved (matches_proof t sha256 p proof r) data_moved data_matched)
          (λ _. data_matched)
          (nil_or_fail t r.0 >>= λ _. require (matches_proof t sha256 p proof r) unsafe)
  unfolding nil_or_fail require
  reached-matches proof (some e, actual) =
      Triple-bind data_moved (λ _. data_moved) _ _ _ (Triple-fail_safely t data_moved _ e)
        (λ _. Triple-fail data_moved _ unsafe) (λ _. refl)
  reached-matches proof (none, none) =
      Triple-stay data_moved _ _ _ (Triple-pure data_moved tt)
        (λ _. Triple-fail data_moved _ unsafe)
  reached-matches proof (none, some actual) =
      Triple-stay _ _ _ _ (Triple-pure _ tt)
        (λ _. reached-require data_moved data_matched (same_proof proof actual) unsafe)

  Triple-verify_target :
      (target : TargetIdentity) (proof : Proof)
      → Triple data_moved (λ _. data_matched) (verify_target t sha256 p target proof)
  unfolding verify_target
  Triple-verify_target target proof =
      Triple-move data_moved data_matched _ _ _
        (λ d. matches_proof t sha256 p proof (target_proof sha256 p d)) _
        (λ d.
          pick_lem (matches_proof t sha256 p proof (target_proof sha256 p d)) data_moved
            data_matched)
        refl λ d. reached-matches proof (target_proof sha256 p d)

  pub Triple-copy :
      (digest : String) (c : CredentialCheck) (source : SourceIdentity)
      → Triple locked (λ _. receipt_written) (copy t sha256 p digest c source)
  unfolding copy
  Triple-copy digest c source = Triple-stay locked _ _ _ (Triple-set_stage locked _) λ _.
      Triple-move locked target_made _ _ _ is_ok _ (λ r. pick_lem (is_ok r) locked target_made) refl
        λ r.
          Triple-reached (is_ok r) locked target_made _ _ _ (reached-or_fail t locked target_made r)
            refl
            λ target.
              Triple-stay target_made _ _ _
                (Triple-require target_made (valid_target p target) unsafe)
                λ _. Triple-stay target_made _ _ _ (Triple-set_stage target_made _) λ _.
                  Triple-stay target_made _ _ _ (Triple-check t p target_made c source _ refl refl)
                    λ _.
                      Triple-then target_made data_moved _ _ _
                        (Triple-transfer_stream t sha256 p source target) refl
                        λ proof. Triple-stay data_moved _ _ _ (Triple-set_stage data_moved _) λ _.
                          Triple-stay data_moved _ _ _
                            (Triple-check t p data_moved c source _ refl refl)
                            λ _.
                              Triple-then data_moved data_matched _ _ _
                                (Triple-verify_target target proof) refl
                                λ _.
                                  Triple-stay data_matched _ _ _ (Triple-set_stage data_matched _)
                                    λ _.
                                      Triple-stay data_matched _ _ _
                                        (Triple-check t p data_matched c source _ refl refl)
                                        λ _.
                                          Triple-stay data_matched _ _ _
                                            (Triple-set_stage data_matched _)
                                            λ _.
                                              Triple-move data_matched target_stopped _ _ _ is_nil _
                                                (λ e.
                                                  pick_lem (is_nil e) data_matched target_stopped)
                                                refl
                                                λ e.
                                                  Triple-reached (is_nil e) data_matched
                                                    target_stopped _ _ _
                                                    (reached-nil_or_fail t data_matched
                                                      target_stopped e)
                                                    refl
                                                    λ _.
                                                      Triple-stay target_stopped _ _ _
                                                        (Triple-set_stage target_stopped _)
                                                        λ _.
                                                          Triple-stay target_stopped _ _ _
                                                            (Triple-check t p target_stopped c
                                                            source _ refl refl)
                                                            λ _.
                                                            Triple-stay target_stopped _ _ _
                                                            (Triple-set_stage target_stopped _)
                                                            λ _.
                                                            Triple-move target_stopped
                                                            receipt_written _ _ _ is_nil _
                                                            (λ w.
                                                            pick_lem (is_nil w) target_stopped
                                                            receipt_written)
                                                            refl
                                                            λ w.
                                                            Triple-reached (is_nil w) target_stopped
                                                            receipt_written _ _ _
                                                            (reached-nil_or_fail t target_stopped
                                                            receipt_written w)
                                                            refl λ _. Triple-pure receipt_written _

  pub Triple-resume :
      (digest : String) (c : CredentialCheck) (source : SourceIdentity) (existing : Receipt)
      → Triple locked (λ _. locked) (resume t sha256 p digest c source existing)
  unfolding resume
  Triple-resume digest c source existing =
      Triple-stay locked _ _ _
        (Triple-require locked (receipt_matches p digest source existing) partial)
        λ _. Triple-stay locked _ _ _ (Triple-set_stage locked _) λ _.
          Triple-stay locked _ _ _ (Triple-check t p locked c source _ refl refl)
            λ _. Triple-pure locked existing
