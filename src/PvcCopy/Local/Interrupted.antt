-- ===== src/PvcCopy/Local/Interrupted.antt =====
-- internal/pvccopy/local.go: a target behind a call of Receive that succeeded or was interrupted.
use runner.Prelude.{
  Bool, true, false, Option, none, some, ◌≡◌, refl, sym, ap, ◌∙◌, inl, inr, ◌⊎◌, Bool-cases, ◌&&◌,
  not, if◌then◌else◌, Option-cases,
}
use runner.Prelude.Bytes.{Bytes}
use runner.PvcCopy.Plan.{Plan, Marker, Receipt, marker_for, empty_receipt, validate, marker_eq}
use runner.PvcCopy.Local.Hoare.{
  After, Ensures, bind-Ensures, pure-Ensures, require-Ensures, operate-Ensures, sync-Ensures,
}
use runner.PvcCopy.Local.{
  Volume, Disk, StateDir, missing, broken, holds, make_state, write_claim, write_received,
  empty_dir, on_state, exists, found, failed, inspect, inspect_state, is_nothing, unpack,
  verify_payload, fill, receive, matches_receipt, matches_marker, read_file,
}

-- The state directory stands, with no completion in it.
pub record IsBegun {P : Type 0} (v : Volume P) : Type 0 where
  pub dir : StateDir
  pub is_dir : v.state ≡ some dir
  pub incomplete : dir.complete ≡ missing

put_dir : {P : Type 0} → Volume P → Volume P
put_dir v = record v { state = some empty_dir }

Volume-ext : {P : Type 0} (v w : Volume P) → v.state ≡ w.state → v.payload ≡ w.payload → v ≡ w
Volume-ext v w s p i = record { state = s i; payload = p i }

module _ {P : Type 0} (m : Marker) where
  abbrev pub IsFresh : Volume P → Type 0
  IsFresh v = v.state ≡ some empty_dir

  abbrev pub IsClaimed : Volume P → Type 0
  IsClaimed v = v.state ≡ some (record empty_dir { claim = holds m })

  abbrev pub HoldsReceipt : Receipt → Volume P → Type 0
  HoldsReceipt r v = v.state ≡ some (record empty_dir { claim = holds m; received = holds r })

  abbrev pub IsStopped : Volume P → Volume P → Type 0
  IsStopped v0 v = (v ≡ v0) ⊎ IsBegun v

  fresh-IsBegun : (v : Volume P) → IsFresh v → IsBegun v
  fresh-IsBegun v h = record { dir = empty_dir; is_dir = h; incomplete = refl }

  claimed-IsBegun : (v : Volume P) → IsClaimed v → IsBegun v
  claimed-IsBegun v h = record { dir = _; is_dir = h; incomplete = refl }

  pub received-IsBegun : (r : Receipt) (v : Volume P) → HoldsReceipt r v → IsBegun v
  received-IsBegun r v h = record { dir = _; is_dir = h; incomplete = refl }

  cut_claim-IsBegun :
      (v : Volume P) → IsFresh v → IsBegun (on_state (λ s. record s { claim = broken }) v)
  cut_claim-IsBegun v h = record {
    dir = record empty_dir { claim = broken };
    is_dir = rw h refl;
    incomplete = refl;
  }

  cut_received-IsBegun :
      (v : Volume P) → IsClaimed v → IsBegun (on_state (λ s. record s { received = broken }) v)
  cut_received-IsBegun v h = record {
    dir = record empty_dir { claim = holds m; received = broken };
    is_dir = rw h refl;
    incomplete = refl;
  }

  make_state-Ensures :
      (v0 : Volume P)
      → Ensures (λ v. (v ≡ v0) × (v.state ≡ none)) (λ _. IsFresh) (IsStopped v0) make_state
  unfolding make_state put_dir
  make_state-Ensures v0 = record {
    run = λ d h. rw (h.1) (
        (operate-Ensures (λ v. v ≡ v0) IsFresh (IsStopped v0) put_dir put_dir (λ v k. refl)
            (λ v k. inr (fresh-IsBegun (put_dir v) refl)) (λ v k. inl k)).run
          _ (Volume-ext _ v0 (sym h.1 ∙ ap (λ v. v.state) h.0) (ap (λ v. v.payload) h.0)));
  }

  write_claim-Ensures :
      (v0 : Volume P) → Ensures IsFresh (λ _. IsClaimed) (IsStopped v0) (write_claim m)
  unfolding write_claim
  write_claim-Ensures v0 = record {
    run = λ d h. rw h (
        (operate-Ensures IsFresh IsClaimed (IsStopped v0)
            (on_state (λ s. record s { claim = holds m }))
            (on_state (λ s. record s { claim = broken })) (λ v k. rw k refl)
            (λ v k. inr (cut_claim-IsBegun v k)) (λ v k. inr (fresh-IsBegun v k))).run
          _ refl);
  }

  write_received-Ensures :
      (v0 : Volume P) (r : Receipt) (Q : P → Type 0)
      → Ensures
          (λ v. IsClaimed v × Q v.payload)
          (λ _ v. HoldsReceipt r v × Q v.payload)
          (IsStopped v0)
          (write_received r)
  unfolding write_received
  write_received-Ensures v0 r Q = record {
    run = λ d h. rw (h.0) (
        (operate-Ensures (λ v. IsClaimed v × Q v.payload) (λ v. HoldsReceipt r v × Q v.payload)
            (IsStopped v0) (on_state (λ s. record s { received = holds r }))
            (on_state (λ s. record s { received = broken })) (λ v k. rw k.0 (refl, k.1))
            (λ v k. inr (cut_received-IsBegun v k.0)) (λ v k. inr (claimed-IsBegun v k.0))).run
          _ (refl, h.1));
  }

state_something :
    (b : Bool) (o : Option Marker) (f : Marker → Bool)
    → is_nothing
        (if b then elim o [ none ↦ failed | some m ↦ if f m then found m else failed ] else failed)
      ≡ false
state_something false o f = refl
state_something true none f = refl
state_something true (some m) f = elim (Bool-cases (f m)) [ inl h ↦ rw h refl | inr h ↦ rw h refl ]

module _ {P : Type 0} (sum_json : Plan → Bytes) (is_empty : P → Bool)
    (export_tree : P → Option Receipt) (p : Plan) (store : P → Option Receipt × P) where
  abbrev claim_marker : Marker
  claim_marker = marker_for sum_json p empty_receipt

  -- What Receive leaves when it returns a receipt.
  abbrev pub IsReceived : Receipt → Volume P → Type 0
  IsReceived r v =
      HoldsReceipt claim_marker r v × (matches_receipt r (export_tree v.payload) ≡ true)

  unpack-Ensures :
      (v0 : Volume P)
      → Ensures
          (IsClaimed claim_marker)
          (λ _. IsClaimed claim_marker)
          (IsStopped claim_marker v0)
          (unpack store)
  unfolding unpack
  unpack-Ensures v0 = record { run = λ d h. unpacked d h (store d.volume.payload) }
    where
      unpacked :
          (d : Disk P)
          → IsClaimed claim_marker d.volume
          → (x : Option Receipt × P)
          → After
              (λ _. IsClaimed claim_marker)
              (IsStopped claim_marker v0)
              (x.0, record d { volume = record d.volume { payload = x.1 } })
      unpacked d h (some r, payload) = h
      unpacked d h (none, payload) = inr (claimed-IsBegun claim_marker _ h)

  fill-Ensures :
      (v0 : Volume P)
      → Ensures
          (IsClaimed claim_marker)
          IsReceived
          (IsStopped claim_marker v0)
          (fill sum_json is_empty export_tree store)
  unfolding fill verify_payload
  fill-Ensures v0 =
      let stop : (v : Volume P) → IsClaimed claim_marker v → IsStopped claim_marker v0 v =
        λ v h. inr (claimed-IsBegun claim_marker v h) in
      bind-Ensures _ (λ _. IsClaimed claim_marker) _ _ _ _ (unpack-Ensures v0)
        λ r.
          bind-Ensures _
            (λ _ v. IsClaimed claim_marker v × (matches_receipt r (export_tree v.payload) ≡ true)) _
            _ _ _
            (require-Ensures _ _ _ (λ v. matches_receipt r (export_tree v.payload))
              (λ v h e. (h, e)) (λ v h e. stop v h))
            λ _.
              bind-Ensures _ (λ _. IsReceived r) _ _ _ _
                (write_received-Ensures claim_marker v0 r
                  (λ q. matches_receipt r (export_tree q) ≡ true))
                λ _.
                  bind-Ensures _ (λ _. IsReceived r) _ _ _ _
                    (sync-Ensures _ _ (λ v h. inr (received-IsBegun claim_marker r v h.0)))
                    λ _. pure-Ensures IsReceived _ r

  inspect-state_something :
      (v : Volume P) (s : StateDir)
      → v.state ≡ some s
      → validate p ≡ true
      → is_nothing (inspect sum_json is_empty export_tree p v) ≡ false
  unfolding inspect inspect_state
  inspect-state_something v s e valid =
      rw (e, valid)
        (state_something (matches_marker claim_marker (read_file s.claim)) (read_file s.complete)
          (λ m.
            marker_eq m (marker_for sum_json p m.receipt)
            && not s.others
            && exists s.received
            && matches_receipt m.receipt (read_file s.received)
            && matches_receipt m.receipt (export_tree v.payload)))

  inspect-invalid :
      (v : Volume P)
      → validate p ≡ false
      → is_nothing (inspect sum_json is_empty export_tree p v) ≡ false
  unfolding inspect
  inspect-invalid v invalid = rw invalid refl

  nothing-state :
      (v : Volume P)
      → is_nothing (inspect sum_json is_empty export_tree p v) ≡ true
      → v.state ≡ none
  unfolding inspect inspect_state
  nothing-state v h = elim (Option-cases v.state) [
    | inl e ↦ e
    | inr (s, e) ↦ elim (Bool-cases (validate p)) [
      | inl valid ↦ absurd (cc (inspect-state_something v s e valid, h))
      | inr invalid ↦ absurd (cc (inspect-invalid v invalid, h))
    ]
  ]

  -- Receive on a target that Inspect finds to be empty: with a receipt, the state directory holds the
  -- claim and that receipt, and the payload was read back with it; without one, the target is as it
  -- was or has a state directory without a completion.
  pub receive-Ensures :
      (v0 : Volume P)
      → Ensures
          (λ v. v ≡ v0)
          IsReceived
          (IsStopped claim_marker v0)
          (receive sum_json is_empty export_tree p store)
  unfolding receive
  receive-Ensures v0 =
      let claimed : (v : Volume P) → IsClaimed claim_marker v → IsStopped claim_marker v0 v =
        λ v h. inr (claimed-IsBegun claim_marker v h) in
      bind-Ensures _ (λ _ v. (v ≡ v0) × (v.state ≡ none)) _ _ _ _
        (require-Ensures _ _ _ (λ v. is_nothing (inspect sum_json is_empty export_tree p v))
          (λ v h e. (h, nothing-state v e)) (λ v h e. inl h))
        λ _.
          bind-Ensures _ (λ _. IsFresh claim_marker) _ _ _ _ (make_state-Ensures claim_marker v0)
            λ _.
              bind-Ensures _ (λ _. IsClaimed claim_marker) _ _ _ _
                (write_claim-Ensures claim_marker v0)
                λ _.
                  bind-Ensures _ (λ _. IsClaimed claim_marker) _ _ _ _ (sync-Ensures _ _ claimed)
                    λ _.
                      bind-Ensures _ (λ _. IsClaimed claim_marker) _ _ _ _
                        (sync-Ensures _ _ claimed) λ _. fill-Ensures v0
