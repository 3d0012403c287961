-- ===== src/PvcCopy/Executor/Follows.antt =====
-- internal/pvccopy/executor.go: Execute follows its protocol and deletes the helpers it made.
use runner.Prelude.{true, Option, none, some, ◌≡◌, sym, ap, ◌∙◌, Bool-cases, inl, inr}
use runner.Prelude.Bytes.{Bytes}
use runner.PvcCopy.Plan.{Plan, Receipt, Marker, marker_for, marker_eq}
use runner.PvcCopy.Plan.Equal.{marker_eq→eq}
use runner.PvcCopy.Archive.{Archive}
use runner.PvcCopy.Executor.Types.{Helper, HelperSpec, Created, Policy, known_helper, exact_helper}
use runner.PvcCopy.Executor.Protocol.{
  Phase, fresh, started, source_made, source_ready, source_checked, target_made, target_ready,
  target_checked, looked, cleared, moved, moved_checked, compared, compared_checked, written,
  finished, Passes, Makes, Waits, Reaches, Fails, Post, Leads, Anything, pure-Leads, step-Leads,
  silent-Leads, require-Leads, bind-Leads,
}
use runner.PvcCopy.Executor.{
  Transport, checked, waited, Run, check, checkpoint, create, put_helper, start_helper, confirm,
  copy, resume, resume_or_copy, body, copy_checked,
}

module _ {W : Type 0} (t : Transport W) (policy : Policy) (p : Plan) where
  checkpoint-Leads :
      (ph next : Phase) → Passes ph next → Leads ph next Anything (checkpoint t policy p)
  unfolding checkpoint
  checkpoint-Leads ph next k = record {
    run = λ s r.
        (step-Leads ph next (check t policy p s.helpers) checked (λ es hs x. Reaches.passed x k)
            (λ es hs x. Fails.check_failed x k)).run
          s r;
  }

  put_helper-Post :
      (ph next : Phase) (spec : HelperSpec) (c : Created) (w : W) (s : Run W)
      → Makes ph next
      → Reaches s.trace ph s.helpers
      → Post next Anything (put_helper t policy p spec c w s)
  put_helper-Post ph next spec c w s k r = elim (Bool-cases c.failed) [
    | inl bad ↦ rw bad (elim (Bool-cases (known_helper spec c.helper)) [
      | inl known ↦ rw known (Fails.stopped (Reaches.made r k))
      | inr unknown ↦ rw unknown (Fails.make_failed r k)
    ])
    | inr good ↦ rw good (elim (Bool-cases (exact_helper spec c.helper)) [
      | inl exact ↦ rw exact (Reaches.made r k, tt)
      | inr other ↦ rw other (Fails.make_failed r k)
    ])
  ]

  create-Leads :
      (ph next : Phase) (spec : HelperSpec)
      → Makes ph next
      → Leads ph next Anything (create t policy p spec)
  unfolding create
  create-Leads ph next spec k = record { run = λ s r. put_helper-Post ph next spec _ _ s k r }

  start_helper-Leads :
      (ph made ready next : Phase) (spec : HelperSpec)
      → Makes ph made
      → Waits made ready
      → Passes ready next
      → Leads ph next Anything (start_helper t policy p spec)
  unfolding start_helper
  start_helper-Leads ph made ready next spec m w k =
      bind-Leads ph made next Anything Anything _ _ (create-Leads ph made spec m) λ h _.
        bind-Leads made ready next Anything Anything _ _
          (step-Leads made ready (confirm (t.wait_ready h)) waited
            (λ es hs x. Reaches.waited_for x w) (λ es hs x. Fails.wait_failed x w))
          λ _ _.
            bind-Leads ready next next Anything Anything _ _ (checkpoint-Leads ready next k)
              λ _ _. pure-Leads next Anything h tt

-- The marker says of its receipt what the plan makes of it.
abbrev pub IsMarkerOf : (Plan → Bytes) → Plan → Marker → Type 0
IsMarkerOf sum_json p m = m ≡ marker_for sum_json p m.receipt

marker_for-IsMarkerOf :
    (sum_json : Plan → Bytes) (p : Plan) (m : Marker) (r : Receipt)
    → marker_eq m (marker_for sum_json p r) ≡ true
    → IsMarkerOf sum_json p m
unfolding marker_for
marker_for-IsMarkerOf sum_json p m r h =
    let same = marker_eq→eq m (marker_for sum_json p r) h in
    same ∙ ap (marker_for sum_json p) (sym (ap (λ x. x.receipt) same))

module _ {W : Type 0} (hex sum_hex : Bytes → Bytes) (sum_json : Plan → Bytes)
    (tar_read : Bytes → Archive) (t : Transport W) (policy : Policy) (p : Plan) where
  -- From the second reading of the source on.
  copy_checked-Leads :
      (source target : Helper) (receipt : Receipt)
      → Leads moved_checked finished
          (IsMarkerOf sum_json p)
          (copy_checked hex sum_hex sum_json tar_read t policy p source target receipt)
  unfolding copy_checked
  copy_checked-Leads source target receipt =
      bind-Leads moved_checked compared finished Anything _ _ _
        (step-Leads moved_checked compared _ _ (λ es hs x. Reaches.reread x)
          (λ es hs x. Fails.reread_failed x))
        λ again _. bind-Leads compared compared finished _ _ _ _ (require-Leads compared _) λ _ _.
          bind-Leads compared compared_checked finished Anything _ _ _
            (checkpoint-Leads t policy p compared compared_checked Passes.to_compared)
            λ _ _.
              bind-Leads compared_checked written finished Anything _ _ _
                (step-Leads compared_checked written _ _ (λ es hs x. Reaches.wrote x)
                  (λ es hs x. Fails.write_failed x))
                λ marker _.
                  bind-Leads written written finished _ _ _ _ (require-Leads written _) λ _ h.
                    bind-Leads written finished finished Anything _ _ _
                      (checkpoint-Leads t policy p written finished Passes.to_finished)
                      λ _ _.
                        pure-Leads finished (IsMarkerOf sum_json p) marker
                          (marker_for-IsMarkerOf sum_json p marker receipt h)

  copy-Leads :
      (source target : Helper)
      → Leads looked finished
          (IsMarkerOf sum_json p)
          (copy hex sum_hex sum_json tar_read t policy p source target)
  unfolding copy
  copy-Leads source target =
      bind-Leads looked cleared finished Anything _ _ _
        (checkpoint-Leads t policy p looked cleared Passes.to_cleared)
        λ _ _.
          bind-Leads cleared moved finished Anything _ _ _
            (step-Leads cleared moved _ _ (λ es hs x. Reaches.sent x)
              (λ es hs x. Fails.send_failed x))
            λ receipt _.
              bind-Leads moved moved_checked finished Anything _ _ _
                (checkpoint-Leads t policy p moved moved_checked Passes.to_moved)
                λ _ _. copy_checked-Leads source target receipt

  resume-Leads :
      (existing : Marker)
      → Leads looked finished
          (IsMarkerOf sum_json p)
          (resume hex sum_hex sum_json tar_read t policy p existing)
  unfolding resume
  resume-Leads existing = bind-Leads looked looked finished _ _ _ _ (require-Leads looked _) λ _ h.
      bind-Leads looked finished finished _ _ _ _
        (checkpoint-Leads t policy p looked finished Passes.to_result)
        λ _ _.
          pure-Leads finished (IsMarkerOf sum_json p) existing
            (marker_for-IsMarkerOf sum_json p existing existing.receipt h)

  resume_or_copy-Leads :
      (source target : Helper) (existing : Option Marker)
      → Leads looked finished
          (IsMarkerOf sum_json p)
          (resume_or_copy hex sum_hex sum_json tar_read t policy p source target existing)
  unfolding resume_or_copy
  resume_or_copy-Leads source target none = copy-Leads source target
  resume_or_copy-Leads source target (some existing) = resume-Leads existing

  pub body-Leads :
      Leads fresh finished (IsMarkerOf sum_json p) (body hex sum_hex sum_json tar_read t policy p)
  unfolding body
  body-Leads =
      bind-Leads fresh started finished Anything _ _ _
        (checkpoint-Leads t policy p fresh started Passes.to_started)
        λ _ _.
          bind-Leads started started finished Anything _ _ _ (silent-Leads started t.entropy)
            λ entropy _.
              bind-Leads started source_checked finished Anything _ _ _
                (start_helper-Leads t policy p started source_made source_ready source_checked _
                  Makes.source Waits.source Passes.to_source)
                λ source _.
                  bind-Leads source_checked target_checked finished Anything _ _ _
                    (start_helper-Leads t policy p source_checked target_made target_ready
                      target_checked _ Makes.target Waits.target Passes.to_target)
                    λ target _.
                      bind-Leads target_checked target_checked finished Anything _ _ _
                        (checkpoint-Leads t policy p target_checked target_checked Passes.again)
                        λ _ _.
                          bind-Leads target_checked looked finished Anything _ _ _
                            (step-Leads target_checked looked _ _ (λ es hs x. Reaches.inspected x)
                              (λ es hs x. Fails.inspect_failed x))
                            λ existing _. resume_or_copy-Leads source target existing
