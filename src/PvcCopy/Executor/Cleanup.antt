-- ===== src/PvcCopy/Executor/Cleanup.antt =====
-- internal/pvccopy/executor.go: every run of Execute follows the protocol, ends with the deletion of
-- the helpers it made, and returns no marker but that of its plan.
use runner.Prelude.{
  Bool, true, false, ◌&&◌, List, [], ◌∷◌, Option, none, some, ◌≡◌, refl, Bool-cases, inl, inr,
  &&_split,
}
use runner.Prelude.Bytes.{Bytes}
use runner.PvcCopy.Plan.{Plan, Marker, validate}
use runner.PvcCopy.Archive.{Archive}
use runner.PvcCopy.Executor.Types.{Helper, Policy, policy_check}
use runner.PvcCopy.Executor.Protocol.{finished, Reaches, Fails, Post}
use runner.PvcCopy.Executor.Follows.{IsMarkerOf, body-Leads}
use runner.PvcCopy.Executor.{
  Transport, Event, deleted, Run, delete_all, with_cleanup, keep_result, body, execute,
}

-- One DeleteHelper for each helper, from the newest on; the Bool is whether all of them succeeded.
pub data Deletes : Bool → List Helper → List Event → List Event → Type 0 where
  none_left : {es : List Event} → Deletes true [] es es
  next :
      {b bs : Bool} {h : Helper} {hs : List Helper} {es fs : List Event}
      → Deletes bs hs (deleted h b ∷ es) fs
      → Deletes (b && bs) (h ∷ hs) es fs

-- What stands before the deletions. A marker is returned only at the end of the protocol, with all
-- helpers deleted, of a plan that is valid and allowed by the policy, and it is that plan's.
abbrev pub Course :
    (Plan → Bytes) → Policy → Plan → Bool → List Event → List Helper → Option Marker → Type 0
Course sum_json policy p all_deleted es hs none = Fails es hs
Course sum_json policy p all_deleted es hs (some m) =
    Reaches es finished hs
    × (all_deleted ≡ true)
    × IsMarkerOf sum_json p m
    × (validate p ≡ true)
    × (policy_check policy p ≡ true)

pub record IsCleanRun (sum_json : Plan → Bytes) (policy : Policy) (p : Plan)
    (result : Option Marker) (trace : List Event) : Type 0 where
  pub before : List Event
  pub helpers : List Helper
  pub all_deleted : Bool
  pub course : Course sum_json policy p all_deleted before helpers result
  pub cleaned : Deletes all_deleted helpers before trace

delete_all-Deletes :
    {W : Type 0} (t : Transport W) (hs : List Helper) (w : W) (es : List Event)
    → Deletes (delete_all t hs w es).0 hs es (delete_all t hs w es).2
unfolding delete_all
delete_all-Deletes t [] w es = none_left
delete_all-Deletes t (h ∷ hs) w es = next (delete_all-Deletes t hs _ _)

kept-Course :
    (sum_json : Plan → Bytes) (policy : Policy) (p : Plan) {W : Type 0} (t : Transport W) (b : Bool)
    (x : Option Marker × Run W)
    → Post finished (IsMarkerOf sum_json p) x
    → (validate p && policy_check policy p) ≡ true
    → Course sum_json policy p b x.1.trace x.1.helpers (keep_result t b x.0)
kept-Course sum_json policy p t true (some m, s) (r, h) ok =
    let (valid, allowed) = &&_split _ _ ok in (r, refl, h, valid, allowed)
kept-Course sum_json policy p t false (some m, s) (r, h) ok = Fails.stopped r
kept-Course sum_json policy p t true (none, s) h ok = h
kept-Course sum_json policy p t false (none, s) h ok = h

-- Every run of Execute, against any transport, keeps to the protocol: it makes the helper of the
-- source and then that of the target, and looks at the target, moves the data, reads the source
-- again and writes the marker in this order, each behind a check that passed. The run ends with one
-- deletion for each helper that was made, the newest first. It returns a marker only of a valid plan
-- that the policy allows, when the last check has passed and all helpers are deleted, and the marker
-- is that of the plan.
pub execute-IsCleanRun :
    {W : Type 0} (hex sum_hex : Bytes → Bytes) (sum_json : Plan → Bytes)
    (tar_read : Bytes → Archive) (t : Transport W) (policy : Policy) (p : Plan) (w : W)
    → IsCleanRun sum_json policy p
        (execute hex sum_hex sum_json tar_read t policy p w).0
        (execute hex sum_hex sum_json tar_read t policy p w).1.trace
unfolding execute with_cleanup
execute-IsCleanRun hex sum_hex sum_json tar_read t policy p w =
    elim (Bool-cases (validate p && policy_check policy p)) [
      | inr refused ↦ rw refused record {
        before = [];
        helpers = [];
        all_deleted = true;
        course = Fails.stopped Reaches.begin;
        cleaned = none_left;
      }
      | inl ok ↦ rw ok (
          let start : Run _ = record { world = w; helpers = []; trace = [] } in
          let x = body hex sum_hex sum_json tar_read t policy p start in
          let post =
            (body-Leads hex sum_hex sum_json tar_read t policy p).run start Reaches.begin in
          record {
            before = x.1.trace;
            helpers = x.1.helpers;
            all_deleted = (delete_all t x.1.helpers x.1.world x.1.trace).0;
            course = kept-Course sum_json policy p t _ x post ok;
            cleaned = delete_all-Deletes t x.1.helpers x.1.world x.1.trace;
          })
    ]
