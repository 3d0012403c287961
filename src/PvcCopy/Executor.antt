-- ===== src/PvcCopy/Executor.antt =====
-- internal/pvccopy/executor.go: Execute against any Transport. What a Transport, the Permission and
-- the context do is unknown: they are functions of a world of any type, which each call may change.
-- The goroutines of a transfer are taken one behind the other, from the export to the import. An
-- error is none: which one it is, nothing here looks at.
pub mod Types
mod Protocol
mod Follows
mod Cleanup
mod Tests
use runner.Prelude.{
  ℕ, Bool, true, false, ◌&&◌, ◌||◌, not, List, [], ◌∷◌, ◌++◌, Option, none, some, ltb, ◌==◌,
  if◌then◌else◌, length, any, all, take,
}
use runner.Prelude.Action.{Stateful, ◌>>=◌, ◌>>◌, pure, require, is_some}
use runner.Prelude.Bytes.{Bytes, codes, bytes_eq}
use runner.PvcCopy.Plan.{
  Plan, PvcRef, Receipt, Marker, TargetBinding, image_ref, binding_eq, binding_of, pvc_ref_eq,
  receipt_eq, marker_eq, marker_for, digest, validate,
}
use runner.PvcCopy.Archive.{Archive, Input, Output, relay}
use runner.PvcCopy.Executor.Types.{
  Pvc, Pod, Helper, HelperSpec, Created, Policy, policy_check, valid_pair, no_consumers,
  known_helper, exact_helper, source_spec, target_spec,
}

-- The calls with what Execute looks at of their answers: none and `false` are errors.
pub record Transport (W : Type 0) : Type 0 where
  pub ctx_ok : W → Bool
  pub permission : Plan → Pvc → Pvc → W → Bool × W
  pub get_pvc : PvcRef → W → Option Pvc × W
  pub list_pods : Bytes → W → Option (List Pod) × W
  pub check_controllers : PvcRef → W → Bool × W
  pub entropy : W → Option Bytes × W
  pub create_helper : HelperSpec → W → Created × W
  pub wait_ready : Helper → W → Bool × W
  -- Exec of pvc-verify, with the decoded response.
  pub verify : Helper → Plan → W → Option (Option Marker) × W
  -- Exec of pvc-export: the stream and whether the error is nil.
  pub export_tree : Helper → Plan → W → (Input × Bool) × W
  -- The pipe into Exec of pvc-import, and the decoded response.
  pub pipe : Output W
  pub import_tree : Helper → Plan → W → Option Receipt × W
  pub complete : Helper → Plan → Receipt → W → Option Marker × W
  pub delete_helper : Helper → W → Bool × W

-- What Execute has done; a Bool is whether it succeeded. `not_created` is a creation after which
-- the code has no helper to delete: it failed without the identity asked for, or it returned no
-- error and another helper than the one asked for.
pub data Event : Type 0 where
  checked : Bool → Event
  created : Helper → Event
  not_created : Event
  waited : Bool → Event
  verified : Bool → Event
  transferred : Bool → Event
  read_again : Bool → Event
  completed : Bool → Event
  deleted : Helper → Bool → Event

pub record Run (W : Type 0) : Type 0 where
  pub world : W
  -- The variable `helpers`, newest first.
  pub helpers : List Helper
  pub trace : List Event

-- Calls of the world, up to the first error.
abbrev pub Ask : Type 0 → Type 0 → Type 0
Ask W A = Stateful W A

abbrev pub Action : Type 0 → Type 0 → Type 0
Action W A = Stateful (Run W) A

-- A call that returns an error only.
pub confirm : {W : Type 0} → (W → Bool × W) → Ask W Unit
unfolding require
confirm f w = let (b, w1) = f w in require b w1

-- Calls of the world as one event.
pub step : {W A : Type 0} → Ask W A → (Bool → Event) → Action W A
step ask event s =
    let (r, w) = ask s.world in (r, record s { world = w; trace = event (is_some r) ∷ s.trace })

-- A call that is no event.
pub silent : {W A : Type 0} → Ask W A → Action W A
silent ask s = let (r, w) = ask s.world in (r, record s { world = w })

module _ {W : Type 0} (t : Transport W) (policy : Policy) (p : Plan) where
  -- The Pods of the namespaces are no consumers of the claims, but for the helpers.
  unfoldable pub check_pods : List Helper → List Bytes → Ask W Unit
  unfolding ◌>>=◌ pure require
  check_pods helpers [] = pure tt
  check_pods helpers (ns ∷ rest) = do
    pods ← t.list_pods ns
    require (no_consumers p helpers ns pods)
    check_pods helpers rest

  abbrev pub namespaces : List Bytes
  namespaces =
      if bytes_eq p.target.namespace p.source.namespace
      then p.source.namespace ∷ []
      else p.source.namespace ∷ p.target.namespace ∷ []

  -- Executor.check
  pub check : List Helper → Ask W Unit
  check helpers = do
    require (policy_check policy p)
    source ← t.get_pvc p.source
    target ← t.get_pvc p.target
    require (valid_pair p (length helpers) source target)
    confirm (t.check_controllers p.source)
    confirm (t.permission p source target)
    check_pods helpers namespaces
    confirm (λ w. (t.ctx_ok w, w))

  pub checkpoint : Action W Unit
  unfolding step check
  checkpoint s = step (check s.helpers) checked s

  abbrev put_helper : HelperSpec → Created → W → Run W → Option Helper × Run W
  put_helper spec c w s =
      if c.failed
      then if known_helper spec c.helper
        then (
          none,
          record s {
            world = w;
            helpers = c.helper ∷ s.helpers;
            trace = created c.helper ∷ s.trace;
          },
        )
        else (none, record s { world = w; trace = not_created ∷ s.trace })
      else if exact_helper spec c.helper
      then (
        some c.helper,
        record s { world = w; helpers = c.helper ∷ s.helpers; trace = created c.helper ∷ s.trace },
      )
      else (none, record s { world = w; trace = not_created ∷ s.trace })

  -- CreateHelper, and what becomes of its answer.
  pub create : HelperSpec → Action W Helper
  create spec s = let (c, w) = t.create_helper spec s.world in put_helper spec c w s

  -- One round of the loop over the two claims.
  pub start_helper : HelperSpec → Action W Helper
  start_helper spec = do h ← create spec; step (confirm (t.wait_ready h)) waited; checkpoint; pure h

-- io.Discard under a tar.Writer.
pub discard : {W : Type 0} → Output W
discard = record {
  put_header = λ h w. (true, w);
  put_content = λ c w. (true, w);
  close_archive = λ w. (true, w);
}

abbrev keep_if : Bool → Option Receipt → Option Receipt
keep_if true r = r
keep_if false r = none

-- The receipt of the relay, where the target has received the same.
abbrev same_receipt : Option Receipt → Option Receipt → Option Receipt
same_receipt (some r) (some received) = if receipt_eq received r then some r else none
same_receipt _ _ = none

-- `hex` is hex.EncodeToString, `sum_hex` the hex of a SHA-256, `sum_json` that of a plan's JSON, and
-- `tar_read` archive/tar's Reader.
module _ {W : Type 0} (hex sum_hex : Bytes → Bytes) (sum_json : Plan → Bytes)
    (tar_read : Bytes → Archive) (t : Transport W) (policy : Policy) (p : Plan) where
  -- From the export to the decoded response of the import.
  pub transfer : Helper → Helper → Ask W Receipt
  unfolding relay
  transfer source target w =
      let (stream, w1) = t.export_tree source p w in
      let (r, w2) = relay tar_read sum_hex p stream.0 t.pipe w1 in
      let (received, w3) = t.import_tree target p w2 in
      (keep_if stream.1 (same_receipt r received), w3)

  -- The second reading of the source.
  pub read_source : Helper → Ask W Receipt
  unfolding relay
  read_source source w =
      let (stream, w1) = t.export_tree source p w in
      let (r, w2) = relay tar_read sum_hex p stream.0 discard w1 in (keep_if stream.1 r, w2)

  -- The rest of Execute behind the check that follows the transfer.
  pub copy_checked : Helper → Helper → Receipt → Action W Marker
  copy_checked source target receipt = do
    verified_receipt ← step (read_source source) read_again
    require (receipt_eq verified_receipt receipt)
    checkpoint t policy p
    marker ← step (t.complete target p receipt) completed
    require (marker_eq marker (marker_for sum_json p receipt))
    checkpoint t policy p
    pure marker

  -- The rest of Execute where the target is empty.
  pub copy : Helper → Helper → Action W Marker
  copy source target = do
    checkpoint t policy p
    receipt ← step (transfer source target) transferred
    checkpoint t policy p
    copy_checked source target receipt

  -- The rest where it holds a completed copy.
  pub resume : Marker → Action W Marker
  resume existing = do
    require (marker_eq existing (marker_for sum_json p existing.receipt))
    checkpoint t policy p
    pure existing

  pub resume_or_copy : Helper → Helper → Option Marker → Action W Marker
  unfolding resume copy
  resume_or_copy source target none = copy source target
  resume_or_copy source target (some existing) = resume existing

  abbrev digest_or_empty : Option Bytes → Bytes
  digest_or_empty none = []
  digest_or_empty (some d) = d

  abbrev owner : Bytes → Bytes
  owner entropy = digest_or_empty (digest sum_json p) ++ codes "-" ++ hex entropy

  -- What runs before the deferred cleanup.
  pub body : Action W Marker
  body = do
    checkpoint t policy p
    entropy ← silent t.entropy
    source ← start_helper t policy p (source_spec sum_hex p (owner entropy))
    target ← start_helper t policy p (target_spec p (hex entropy) (owner entropy))
    checkpoint t policy p
    existing ← step (t.verify target p) verified
    resume_or_copy source target existing

module _ {W : Type 0} (t : Transport W) where
  -- The deferred loop: DeleteHelper from the newest to the oldest, and whether all went well.
  unfoldable pub delete_all : List Helper → W → List Event → Bool × W × List Event
  delete_all [] w trace = (true, w, trace)
  delete_all (h ∷ hs) w trace =
      let (b, w1) = t.delete_helper h w in
      let (bs, w2, trace2) = delete_all hs w1 (deleted h b ∷ trace) in (b && bs, w2, trace2)

  -- An error of the cleanup takes the place of the result. The marker that Go returns beside that
  -- error is left out.
  abbrev keep_result : Bool → Option Marker → Option Marker
  keep_result true r = r
  keep_result false r = none

  pub with_cleanup : Action W Marker → Action W Marker
  unfolding delete_all
  with_cleanup m s =
      let (r, s1) = m s in
      let (b, w, trace) = delete_all s1.helpers s1.world s1.trace in
      (keep_result b r, record s1 { world = w; trace = trace })

module _ {W : Type 0} (hex sum_hex : Bytes → Bytes) (sum_json : Plan → Bytes)
    (tar_read : Bytes → Archive) (t : Transport W) (policy : Policy) where
  -- Execute, with a Transport and a Permission that are not nil, from a world.
  unfoldable pub execute : Plan → W → Option Marker × Run W
  unfolding with_cleanup body
  execute p w =
      let begin : Run W = record { world = w; helpers = []; trace = [] } in
      if validate p && policy_check policy p
      then with_cleanup t (body hex sum_hex sum_json tar_read t policy p) begin
      else (none, begin)
