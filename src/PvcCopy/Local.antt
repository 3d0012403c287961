-- ===== src/PvcCopy/Local.antt =====
-- internal/pvccopy/local.go: the claim, the receipt and the completion that a target volume holds in
-- its state directory, on a disk where every operation may fail or be cut short. The files of the
-- payload, their export and the writing of them are arguments.
mod Hoare
mod Interrupted
mod Completed
mod Tests
use runner.Prelude.{
  ℕ, Bool, true, false, ◌&&◌, not, List, [], ◌∷◌, Option, none, some, if◌then◌else◌,
}
use runner.Prelude.Action.{Stateful, ◌>>=◌, ◌>>◌, pure, require}
use runner.Prelude.Bytes.{Bytes}
use runner.PvcCopy.Plan.{
  Plan, Receipt, Marker, receipt_eq, marker_eq, marker_for, empty_receipt, validate,
}
use runner.PvcCopy.Archive.{Archive, Input, Destination, consume}

-- A file of the state directory: the value that readJSON reads from it, none where it fails.
pub data File (A : Type 0) : Type 0 where
  missing : File A
  broken : File A
  holds : A → File A

-- The state directory, and whether other names stand in it.
pub record StateDir : Type 0 where
  pub claim : File Marker
  pub received : File Receipt
  pub complete : File Marker
  pub others : Bool

-- A volume: its state directory, if there is one, and its payload.
pub record Volume (P : Type 0) : Type 0 where
  pub state : Option StateDir
  pub payload : P

-- How an operation on the disk ends: it is done, refused with nothing changed, or cut short.
pub data Fate : Type 0 where
  done refused torn : Fate

-- The fates of the operations to come; behind them all operations are done.
pub record Disk (P : Type 0) : Type 0 where
  pub volume : Volume P
  pub fates : List Fate

-- What Inspect returns: nil and nil, a marker, or an error.
pub data Found : Type 0 where
  nothing : Found
  found : Marker → Found
  failed : Found

-- readJSON
abbrev pub read_file : {A : Type 0} → File A → Option A
read_file missing = none
read_file broken = none
read_file (holds a) = some a

abbrev pub exists : {A : Type 0} → File A → Bool
exists missing = false
exists broken = true
exists (holds a) = true

abbrev empty_dir : StateDir
empty_dir = record { claim = missing; received = missing; complete = missing; others = false }

abbrev pub Step : Type 0 → Type 0 → Type 0
Step P A = Stateful (Disk P) A

module _ {P : Type 0} where
  abbrev by_fate : (Volume P → Volume P) → (Volume P → Volume P) → Fate → Stateful (Volume P) Unit
  by_fate good cut done v = (some tt, good v)
  by_fate good cut refused v = (none, v)
  by_fate good cut torn v = (none, cut v)

  -- An operation that changes the volume, as a whole or in part.
  pub operate : (Volume P → Volume P) → (Volume P → Volume P) → Step P Unit
  operate good cut d = elim d.fates [
    | [] ↦ (some tt, record d { volume = good d.volume })
    | fate ∷ fates ↦
        let (r, v) = by_fate good cut fate d.volume in (r, record { volume = v; fates = fates })
  ]

  -- syncDirectory, and syncTree over the payload
  pub sync : Step P Unit
  unfolding operate
  sync = operate (λ v. v) (λ v. v)

  -- root.Mkdir of the state directory, which fails where it exists.
  pub make_state : Step P Unit
  unfolding operate
  make_state d = elim d.volume.state [
    | some s ↦ (none, d)
    | none ↦
        operate (λ v. record v { state = some empty_dir })
          (λ v. record v { state = some empty_dir }) d
  ]

  abbrev on_state : (StateDir → StateDir) → Volume P → Volume P
  on_state f v = elim v.state [ none ↦ v | some s ↦ record v { state = some (f s) } ]

  abbrev state_has : (StateDir → Bool) → Volume P → Bool
  state_has f v = elim v.state [ none ↦ true | some s ↦ f s ]

  -- writeJSON of the three files; each fails where the file exists, and may leave a broken one.
  pub write_claim : Marker → Step P Unit
  unfolding operate
  write_claim m d =
      if state_has (λ s. exists s.claim) d.volume
      then (none, d)
      else operate (on_state (λ s. record s { claim = holds m }))
          (on_state (λ s. record s { claim = broken })) d

  pub write_received : Receipt → Step P Unit
  unfolding operate
  write_received r d =
      if state_has (λ s. exists s.received) d.volume
      then (none, d)
      else operate (on_state (λ s. record s { received = holds r }))
          (on_state (λ s. record s { received = broken })) d

  pub write_complete : Marker → Step P Unit
  unfolding operate
  write_complete m d =
      if state_has (λ s. exists s.complete) d.volume
      then (none, d)
      else operate (on_state (λ s. record s { complete = holds m }))
          (on_state (λ s. record s { complete = broken })) d

abbrev matches_marker : Marker → Option Marker → Bool
matches_marker want none = false
matches_marker want (some m) = marker_eq m want

abbrev matches_receipt : Receipt → Option Receipt → Bool
matches_receipt want none = false
matches_receipt want (some r) = receipt_eq r want

abbrev is_nothing : Found → Bool
is_nothing nothing = true
is_nothing (found m) = false
is_nothing failed = false

-- consume into the payload, with targetReceiver.finish.
pub unpack : {P : Type 0} → (P → Option Receipt × P) → Step P Receipt
unpack store d =
    let (r, payload) = store d.volume.payload in
    (r, record d { volume = record d.volume { payload = payload } })

-- `is_empty` is whether a payload has no file, `export_tree` the receipt of an export without the
-- state directory, and `files` what consume writes an archive into.
module _ {P : Type 0} (sum_json : Plan → Bytes) (is_empty : P → Bool)
    (export_tree : P → Option Receipt) where
  -- From the check of the claim on.
  unfoldable pub inspect_state : Plan → StateDir → P → Found
  inspect_state p s payload =
      if matches_marker (marker_for sum_json p empty_receipt) (read_file s.claim)
      then elim (read_file s.complete) [
        | none ↦ failed
        | some m ↦
            if marker_eq m (marker_for sum_json p m.receipt)
              && not s.others
              && exists s.received
              && matches_receipt m.receipt (read_file s.received)
              && matches_receipt m.receipt (export_tree payload)
            then found m
            else failed
      ]
      else failed

  unfoldable pub inspect : Plan → Volume P → Found
  unfolding inspect_state
  inspect p v =
      if validate p
      then elim v.state [
        | some s ↦ inspect_state p s v.payload
        | none ↦ if is_empty v.payload then nothing else failed
      ]
      else failed

  pub verify_payload : Receipt → Step P Unit
  unfolding require
  verify_payload r d = require (matches_receipt r (export_tree d.volume.payload)) d

  -- What Receive does behind the claim.
  pub fill : (P → Option Receipt × P) → Step P Receipt
  unfolding unpack
  fill store = do r ← unpack store; verify_payload r; write_received r; sync; pure r

  -- Receive; `store` is consume of the input, and targetReceiver.finish.
  unfoldable pub receive : Plan → (P → Option Receipt × P) → Step P Receipt
  unfolding fill inspect
  receive p store = do
    (λ d. require (is_nothing (inspect p d.volume)) d)
    make_state
    write_claim (marker_for sum_json p empty_receipt)
    sync
    sync
    fill store

  abbrev claim_of : Volume P → Option Marker
  claim_of v = elim v.state [ none ↦ none | some s ↦ read_file s.claim ]

  abbrev received_of : Volume P → Option Receipt
  received_of v = elim v.state [ none ↦ none | some s ↦ read_file s.received ]

  -- What Complete checks before it writes.
  unfoldable pub completable : Plan → Receipt → Volume P → Bool
  completable p expected v =
      validate p
      && matches_marker (marker_for sum_json p empty_receipt) (claim_of v)
      && matches_receipt expected (received_of v)
      && matches_receipt expected (export_tree v.payload)

  -- Complete
  unfoldable pub complete : Plan → Receipt → Step P Marker
  unfolding completable
  complete p expected = do
    (λ d. require (completable p expected d.volume) d)
    sync
    write_complete (marker_for sum_json p expected)
    sync
    sync
    pure (marker_for sum_json p expected)
