-- ===== src/PvcCopy/Local/Completed.antt =====
-- internal/pvccopy/local.go: what Inspect finds behind Receive and Complete.
use mathlib.Core.Path.{subst}
use runner.Prelude.{
  Bool, true, false, [], Option, none, some, ◌≡◌, refl, ap, inl, inr, ◌⊎◌, Bool-cases,
}
use runner.Prelude.Bytes.{Bytes}
use runner.Prelude.Action.{◌>>=◌, pure, require}
use runner.PvcCopy.Plan.{Plan, Receipt, marker_for, marker_eq, receipt_eq, empty_receipt, validate}
use runner.PvcCopy.Plan.Equal.{marker_eq_refl, receipt_eq_refl, receipt_eq→eq}
use runner.PvcCopy.Local.Hoare.{After}
use runner.PvcCopy.Local.Interrupted.{
  IsBegun, HoldsReceipt, IsReceived, IsStopped, receive-Ensures, received-IsBegun,
}
use runner.PvcCopy.Local.{
  Volume, Disk, StateDir, holds, operate, sync, write_complete, found, failed, inspect,
  inspect_state, receive, complete, completable, matches_receipt, matches_marker, read_file,
}

-- A disk on which nothing will fail.
abbrev pub quiet : {P : Type 0} → Volume P → Disk P
quiet v = record { volume = v; fates = [] }

module _ {P : Type 0} (sum_json : Plan → Bytes) (is_empty : P → Bool)
    (export_tree : P → Option Receipt) (p : Plan) where
  begun-inspect : (v : Volume P) → IsBegun v → inspect sum_json is_empty export_tree p v ≡ failed
  unfolding inspect inspect_state
  begun-inspect v h =
      rw (h.is_dir, h.incomplete)
        (elim (Bool-cases (validate p)) [
          | inr invalid ↦ rw invalid refl
          | inl valid ↦
              rw valid
                (elim (Bool-cases
                  (matches_marker (marker_for sum_json p empty_receipt) (read_file h.dir.claim))) [
                    | inl same ↦ rw same refl
                    | inr other ↦ rw other refl
                  ])
        ])

  -- The end of a call of Receive on the target v0.
  abbrev pub IsGuarded : Volume P → Option Receipt × Disk P → Type 0
  IsGuarded v0 (some r, d) = inspect sum_json is_empty export_tree p d.volume ≡ failed
  IsGuarded v0 (none, d) =
      (d.volume ≡ v0) ⊎ (inspect sum_json is_empty export_tree p d.volume ≡ failed)

  guarded :
      (store : P → Option Receipt × P) (v0 : Volume P) (x : Option Receipt × Disk P)
      → After
          (IsReceived sum_json is_empty export_tree p store)
          (IsStopped (marker_for sum_json p empty_receipt) v0)
          x
      → IsGuarded v0 x
  guarded store v0 (some r, d) h =
      begun-inspect d.volume (received-IsBegun (marker_for sum_json p empty_receipt) r d.volume h.0)
  guarded store v0 (none, d) (inl same) = inl same
  guarded store v0 (none, d) (inr begun) = inr (begun-inspect d.volume begun)

  -- Whatever the archive and the fates of the operations on the disk, a call of Receive that returns
  -- a receipt leaves a target on which Inspect fails, and one that returns none leaves the target as
  -- it was or such that Inspect fails; so what it wrote never looks empty or complete.
  pub receive-IsGuarded :
      (store : P → Option Receipt × P) (d : Disk P)
      → IsGuarded d.volume (receive sum_json is_empty export_tree p store d)
  receive-IsGuarded store d =
      guarded store d.volume _
        ((receive-Ensures sum_json is_empty export_tree p store d.volume).run d refl)

  received_payload : (r : Receipt) (o : Option Receipt) → matches_receipt r o ≡ true → o ≡ some r
  received_payload r none h = cc h
  received_payload r (some s) h = ap (λ x. some x) (receipt_eq→eq s r h)

  -- The state directory of a completed copy.
  abbrev full_dir : Receipt → StateDir
  full_dir r = record {
    claim = holds (marker_for sum_json p empty_receipt);
    received = holds r;
    complete = holds (marker_for sum_json p r);
    others = false;
  }

  complete-quiet :
      (r : Receipt) (v : Volume P)
      → validate p ≡ true
      → HoldsReceipt (marker_for sum_json p empty_receipt) r v
      → export_tree v.payload ≡ some r
      → complete sum_json is_empty export_tree p r (quiet v)
        ≡ (some (marker_for sum_json p r), quiet (record v { state = some (full_dir r) }))
  unfolding complete completable sync write_complete operate ◌>>=◌ pure require
  complete-quiet r v valid h e =
      rw (valid, h, e, marker_eq_refl (marker_for sum_json p empty_receipt), receipt_eq_refl r) refl

  own_marker :
      (r : Receipt)
      → marker_eq
          (marker_for sum_json p r)
          (marker_for sum_json p (marker_for sum_json p r).receipt)
        ≡ true
  unfolding marker_for
  own_marker r = marker_eq_refl (marker_for sum_json p r)

  own_receipt : (r : Receipt) → receipt_eq r (marker_for sum_json p r).receipt ≡ true
  unfolding marker_for
  own_receipt r = receipt_eq_refl r

  full-inspect :
      (r : Receipt) (v : Volume P)
      → validate p ≡ true
      → export_tree v.payload ≡ some r
      → inspect sum_json is_empty export_tree p (record v { state = some (full_dir r) })
        ≡ found (marker_for sum_json p r)
  unfolding inspect inspect_state
  full-inspect r v valid e =
      rw
        (
          valid,
          e,
          marker_eq_refl (marker_for sum_json p empty_receipt),
          own_marker r,
          own_receipt r,
        )
        refl

  received_facts :
      (store : P → Option Receipt × P) (v0 : Volume P) (r : Receipt) (x : Option Receipt × Disk P)
      → After
          (IsReceived sum_json is_empty export_tree p store)
          (IsStopped (marker_for sum_json p empty_receipt) v0)
          x
      → x.0 ≡ some r
      → HoldsReceipt (marker_for sum_json p empty_receipt) r x.1.volume
        × (export_tree x.1.volume.payload ≡ some r)
  received_facts store v0 r (some s, d) h e =
      let same : s ≡ r = cc e in
      subst
        (λ q.
          HoldsReceipt (marker_for sum_json p empty_receipt) q d.volume
          × (export_tree d.volume.payload ≡ some q))
        same (h.0, received_payload s (export_tree d.volume.payload) h.1)
  received_facts store v0 r (none, d) h e = cc e

  -- Where Receive has returned a receipt, of whatever archive, under a valid plan, a call of Complete
  -- with that receipt on a disk that fails no more returns the marker of the plan and the receipt,
  -- and Inspect then finds that marker.
  pub receive-complete-inspect :
      (store : P → Option Receipt × P) (d : Disk P) (r : Receipt)
      → validate p ≡ true
      → (receive sum_json is_empty export_tree p store d).0 ≡ some r
      → ((complete sum_json is_empty export_tree p r
            (quiet (receive sum_json is_empty export_tree p store d).1.volume)).0
          ≡ some (marker_for sum_json p r))
        × (inspect sum_json is_empty export_tree p
              (complete sum_json is_empty export_tree p r
                (quiet (receive sum_json is_empty export_tree p store d).1.volume)).1.volume
            ≡ found (marker_for sum_json p r))
  receive-complete-inspect store d r valid h =
      let (held, exported) =
        received_facts store d.volume r (receive sum_json is_empty export_tree p store d)
          ((receive-Ensures sum_json is_empty export_tree p store d.volume).run d refl) h in
      let v = (receive sum_json is_empty export_tree p store d).1.volume in
      rw (complete-quiet r v valid held exported) (refl, full-inspect r v valid exported)
