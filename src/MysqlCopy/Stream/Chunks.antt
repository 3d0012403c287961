-- ===== src/MysqlCopy/Stream/Chunks.antt =====
-- tracker.Write does not depend on how the stream is cut into calls.
use mathlib.Core.Path.{ap₂}
use mathlib.Core.List.{append_assoc}
use runner.Prelude.{
  ℕ, ◌+◌, ◌≤◌, ◌<◌, Option, none, some, Bool, true, false, ltb, [], ◌∷◌, ◌++◌, ◌≡◌, refl, sym, ap,
  ◌∙◌, arith, length, length-append, Bool-cases, inl, inr, not_ltb→le, ltb→lt,
}
use runner.Prelude.Bytes.{Bytes}
use runner.MysqlCopy.Plan.{Plan}
use runner.MysqlCopy.Stream.{Tracker, write_byte, write_bytes, write}

module _ (sha256 : Bytes → Bytes) (p : Plan) where
  write_bytes-append :
      (a b : Bytes) (t t1 : Tracker)
      → write_bytes sha256 p a t ≡ (true, t1)
      → write_bytes sha256 p (a ++ b) t ≡ write_bytes sha256 p b t1
  unfolding write_bytes
  write_bytes-append [] b t t1 h = ap (λ (r : Bool × Tracker). write_bytes sha256 p b r.1) h
  write_bytes-append (c ∷ a) b t t1 h = elim (Bool-cases (write_byte sha256 p c t).0) [
    | inl done ↦ rw done (write_bytes-append a b (write_byte sha256 p c t).1 t1 (rw done at h))
    | inr refused ↦
        let e : (false, (write_byte sha256 p c t).1) ≡ (true, t1) = rw refused at h in
        cc (ap (λ (r : Bool × Tracker). r.0) e)
  ]

  -- A refused prefix refuses the whole.
  write_bytes-refused :
      (a b : Bytes) (t : Tracker)
      → (write_bytes sha256 p a t).0 ≡ false
      → (write_bytes sha256 p (a ++ b) t).0 ≡ false
  unfolding write_bytes
  write_bytes-refused [] b t h = cc h
  write_bytes-refused (c ∷ a) b t h = elim (Bool-cases (write_byte sha256 p c t).0) [
    | inl done ↦ rw done (write_bytes-refused a b (write_byte sha256 p c t).1 (rw done at h))
    | inr refused ↦ rw refused
  ]

-- A tracker with the two audit fields given anew.
abbrev pub audited : ℕ → Bytes → Tracker → Tracker
audited n h t = record t { bytes = n; hashed = h }

abbrev audited_result : ℕ → Bytes → Bool × Tracker → Bool × Tracker
audited_result n h r = (r.0, audited n h r.1)

module _ (sha256 : Bytes → Bytes) (p : Plan) where
  -- The loop neither reads nor writes the audit fields.
  write_byte-audited :
      (c n : ℕ) (h : Bytes) (t : Tracker)
      → write_byte sha256 p c (audited n h t) ≡ audited_result n h (write_byte sha256 p c t)
  unfolding write_byte
  write_byte-audited c n h t = ground arith

  write_bytes-audited :
      (b : Bytes) (n : ℕ) (h : Bytes) (t : Tracker)
      → write_bytes sha256 p b (audited n h t) ≡ audited_result n h (write_bytes sha256 p b t)
  unfolding write_bytes
  write_bytes-audited [] n h t = refl
  write_bytes-audited (c ∷ b) n h t =
      rw (write_byte-audited c n h t) (elim (Bool-cases (write_byte sha256 p c t).0) [
        | inl done ↦ rw done (write_bytes-audited b n h (write_byte sha256 p c t).1)
        | inr refused ↦ rw refused
      ])

  -- While it succeeds it leaves them, and the failure flag, alone.
  pub write_byte-keeps :
      (c : ℕ) (t : Tracker)
      → (write_byte sha256 p c t).0 ≡ true
      → ((write_byte sha256 p c t).1.bytes ≡ t.bytes)
        × ((write_byte sha256 p c t).1.hashed ≡ t.hashed)
        × ((write_byte sha256 p c t).1.failed ≡ t.failed)
  unfolding write_byte
  write_byte-keeps c t h = ground arith

  pub write_bytes-keeps :
      (b : Bytes) (t : Tracker)
      → (write_bytes sha256 p b t).0 ≡ true
      → ((write_bytes sha256 p b t).1.bytes ≡ t.bytes)
        × ((write_bytes sha256 p b t).1.hashed ≡ t.hashed)
        × ((write_bytes sha256 p b t).1.failed ≡ t.failed)
  unfolding write_bytes
  write_bytes-keeps [] t h = (refl, refl, refl)
  write_bytes-keeps (c ∷ b) t h = elim (Bool-cases (write_byte sha256 p c t).0) [
    | inl done ↦
        let (k0, k1, k2) = write_byte-keeps c t done in
        let (r0, r1, r2) = write_bytes-keeps b (write_byte sha256 p c t).1 (rw done at h) in
        rw done (r0 ∙ k0, r1 ∙ k1, r2 ∙ k2)
    | inr refused ↦ let e : false ≡ true = rw refused at h in cc e
  ]

-- The tracker behind a call that succeeded.
abbrev pub accepted : Bool × Tracker → Option Tracker
accepted (true, t) = some t
accepted (false, t) = none

module _ (sha256 : Bytes → Bytes) (p : Plan) where
  abbrev pub write_next : Bytes → Option Tracker → Option Tracker
  write_next b none = none
  write_next b (some t) = accepted (write sha256 p b t)

  -- The tracker behind a call whose loop ended in `t1`.
  abbrev counted : Bytes → Tracker → Tracker
  counted a t1 = audited (t1.bytes + length a) (t1.hashed ++ a) t1

  write-ok :
      (a : Bytes) (t t1 : Tracker)
      → t.failed ≡ false
      → t.bytes + length a ≤ p.max_bytes
      → write_bytes sha256 p a t ≡ (true, t1)
      → write sha256 p a t ≡ (true, counted a t1)
  unfolding write
  write-ok a t t1 live fits e = ground arith

  write-failed : (b : Bytes) (t : Tracker) → t.failed ≡ true → accepted (write sha256 p b t) ≡ none
  unfolding write
  write-failed b t e = ground arith

  -- What a call that succeeded has done.
  pub write-cases :
      (b : Bytes) (t t1 : Tracker)
      → write sha256 p b t ≡ (true, t1)
      → ((write_bytes sha256 p b t).0 ≡ true)
        × (t1
            ≡ audited
                ((write_bytes sha256 p b t).1.bytes + length b)
                ((write_bytes sha256 p b t).1.hashed ++ b)
                (write_bytes sha256 p b t).1)
  unfolding write
  write-cases b t t1 e = ground arith

  write-refused :
      (a : Bytes) (t : Tracker)
      → (write_bytes sha256 p a t).0 ≡ false
      → accepted (write sha256 p a t) ≡ none
  unfolding write
  write-refused a t e = ground arith

  counted-append :
      (a b : Bytes) (t1 t2 : Tracker)
      → t2.bytes ≡ t1.bytes
      → t2.hashed ≡ t1.hashed
      → counted b (audited (t1.bytes + length a) (t1.hashed ++ a) t2) ≡ counted (a ++ b) t2
  counted-append a b t1 t2 same_bytes same_hashed =
      ap₂ (λ n h. audited n h t2) (omega (arith, length-append a b))
        (append_assoc t1.hashed a b ∙ ap (λ l. l ++ (a ++ b)) (sym same_hashed))

  write-over :
      (b : Bytes) (t : Tracker)
      → p.max_bytes < t.bytes + length b
      → accepted (write sha256 p b t) ≡ none
  unfolding write
  write-over b t h = ground arith

  pair_of : (r : Bool × Tracker) → r.0 ≡ true → r ≡ (true, r.1)
  pair_of (true, t) h = refl
  pair_of (false, t) h = cc h

  -- The second call, behind a first one that succeeded.
  after_first :
      (a b : Bytes) (t t1 : Tracker)
      → t.failed ≡ false
      → t.bytes + length a ≤ p.max_bytes
      → write_bytes sha256 p a t ≡ (true, t1)
      → accepted (write sha256 p (a ++ b) t) ≡ accepted (write sha256 p b (counted a t1))
  after_first a b t t1 live fits e =
      let (k0, k1, k2) =
        rw e at (write_bytes-keeps sha256 p a t (ap (λ (r : Bool × Tracker). r.0) e)) in
      let joined = write_bytes-append sha256 p a b t t1 e in
      let framed = write_bytes-audited sha256 p b (t1.bytes + length a) (t1.hashed ++ a) t1 in
      elim (Bool-cases (ltb p.max_bytes (t.bytes + length (a ++ b)))) [
        | inl over ↦
            write-over (a ++ b) t (ltb→lt _ _ over)
            ∙ sym (write-over b (counted a t1) (omega (arith, ltb→lt _ _ over, length-append a b)))
        | inr under ↦ elim (Bool-cases (write_bytes sha256 p b t1).0) [
          | inr refused ↦
              write-refused (a ++ b) t (rw joined refused)
              ∙ sym (write-refused b (counted a t1) (rw framed refused))
          | inl done ↦
              let t2 = (write_bytes sha256 p b t1).1 in
              let (m0, m1, m2) = write_bytes-keeps sha256 p b t1 done in
              let first =
                write-ok (a ++ b) t t2 live (not_ltb→le _ _ under) (joined ∙ pair_of _ done) in
              let second =
                write-ok b (counted a t1) (audited (t1.bytes + length a) (t1.hashed ++ a) t2)
                  (k2 ∙ live) (omega (arith, not_ltb→le _ _ under, length-append a b))
                  (framed
                    ∙ ap (audited_result (t1.bytes + length a) (t1.hashed ++ a))
                        (pair_of (write_bytes sha256 p b t1) done)) in
              ap accepted first
              ∙ ap some (sym (counted-append a b t1 t2 m0 m1))
              ∙ sym (ap accepted second)
        ]
      ]

  -- Writing a stream in two calls is writing it in one: the calls succeed together, and then they
  -- leave the same tracker, byte count, hashes, tables and unfinished statement included. So what
  -- is validated does not depend on how the transport cuts the stream.
  pub write-append :
      (a b : Bytes) (t : Tracker)
      → accepted (write sha256 p (a ++ b) t) ≡ write_next b (accepted (write sha256 p a t))
  write-append a b t = elim (Bool-cases t.failed) [
    | inl dead ↦ rw (write-failed (a ++ b) t dead, write-failed a t dead)
    | inr live ↦ elim (Bool-cases (ltb p.max_bytes (t.bytes + length a))) [
      | inl over ↦
          rw (write-over a t (ltb→lt _ _ over))
            (write-over (a ++ b) t (omega (arith, ltb→lt _ _ over, length-append a b)))
      | inr under ↦ elim (Bool-cases (write_bytes sha256 p a t).0) [
        | inr refused ↦
            rw (write-refused a t refused)
              (write-refused (a ++ b) t (write_bytes-refused sha256 p a b t refused))
        | inl done ↦
            let t1 = (write_bytes sha256 p a t).1 in
            let fits = not_ltb→le _ _ under in
            rw (write-ok a t t1 live fits (pair_of _ done))
              (after_first a b t t1 live fits (pair_of _ done))
      ]
    ]
  ]
