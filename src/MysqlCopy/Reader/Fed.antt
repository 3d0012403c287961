-- ===== src/MysqlCopy/Reader/Fed.antt =====
-- One Read of validatedSQLReader: what it takes from its input, validates and hands on.
use mathlib.Core.Path.{subst}
use mathlib.Core.List.{append_assoc, append-nil}
use runner.Prelude.{
  ℕ, Bool, true, false, ◌&&◌, not, ◌==◌, [], ◌∷◌, ◌++◌, ◌≡◌, refl, sym, ap, ◌∙◌, inl, inr, arith,
  Bool-cases, length, take-append-drop,
}
use runner.Prelude.Bytes.{Bytes}
use runner.MysqlCopy.Plan.{Plan}
use runner.MysqlCopy.Quote.{Quoting, in_quotes, quote_step}
use runner.MysqlCopy.Stream.{Tracker, write, finish, is_some}
use runner.MysqlCopy.Stream.Chunks.{write-cases, write_bytes-keeps}
use runner.MysqlCopy.Reader.{
  Reader, Status, fine, eof, refused, broken, Outcome, serve, stop, forward, finish_forward, at_end,
  too_long, gather,
}

abbrev pub is_ok : Status → Bool
is_ok fine = true
is_ok eof = true
is_ok refused = false
is_ok broken = false

-- An empty list by its length.
pub nil_of_length : (s : Bytes) → (length s == 0) ≡ true → s ≡ []
nil_of_length [] h = refl
nil_of_length (c ∷ s) h = ground arith

-- What the end of the input promises.
abbrev pub EndsWell : (Bytes → Bytes) → Reader → Type 0
EndsWell sha256 v =
    v.done ≡ true → (v.input ≡ []) × (v.breaks ≡ false) × (is_some (finish sha256 v.tracker) ≡ true)

module _ (sha256 : Bytes → Bytes) (p : Plan) where
  hashed-write :
      (b : Bytes) (t : Tracker)
      → (write sha256 p b t).0 ≡ true
      → (write sha256 p b t).1.hashed ≡ t.hashed ++ b
  hashed-write b t h =
      let (done, t1_is) = write-cases sha256 p b t (write sha256 p b t).1 (pair h) in
      let (_, same, _) = write_bytes-keeps sha256 p b t done in
      ap (λ (u : Tracker). u.hashed) t1_is ∙ ap (λ s. s ++ b) same
    where
      pair : {r : Bool × Tracker} → r.0 ≡ true → r ≡ (true, r.1)
      pair {r} e = ap (λ d. (d, r.1)) e

  -- A step that took `delta` from the head of `fed` into the tracker, and hands it on.
  pub record IsFed (fed : Bytes) (v : Reader) (o : Outcome) : Type 0 where
    pub delta : Bytes
    pub hashed : o.next.tracker.hashed ≡ v.tracker.hashed ++ delta
    pub passed : o.output ++ o.next.ready ≡ delta
    pub rest : delta ++ o.next.input ≡ fed
    pub breaks : o.next.breaks ≡ v.breaks
    pub ends_well : EndsWell sha256 o.next

  serve-passed : (n : ℕ) (v : Reader) → (serve n v).output ++ (serve n v).next.ready ≡ v.ready
  unfolding serve
  serve-passed n v = take-append-drop n v.ready

  forward-IsFed :
      (n : ℕ) (s : Bytes) (v : Reader)
      → v.done ≡ false
      → is_ok (forward sha256 p n s v).status ≡ true
      → IsFed (s ++ v.input) v (forward sha256 p n s v)
  unfolding forward
  forward-IsFed n s v live h = elim (Bool-cases (write sha256 p s v.tracker).0) [
    | inr bad ↦ let e : false ≡ true = rw bad at h in cc e
    | inl good ↦ rw good (record {
      delta = s;
      hashed = hashed-write s v.tracker good;
      passed = take-append-drop n s;
      rest = refl;
      breaks = refl;
      ends_well = λ e. let x : false ≡ true = sym live ∙ e in cc x;
    })
  ]

  finish_forward-IsFed :
      (n : ℕ) (s : Bytes) (v w : Reader)
      → w.input ≡ []
      → w.ready ≡ []
      → w.breaks ≡ false
      → v.breaks ≡ false
      → w.tracker.hashed ≡ v.tracker.hashed ++ s
      → is_ok (finish_forward sha256 n s w).status ≡ true
      → IsFed s v (finish_forward sha256 n s w)
  unfolding finish_forward
  finish_forward-IsFed n s v w no_input no_ready whole whole_v hashed h =
      elim (Bool-cases (is_some (finish sha256 w.tracker))) [
        | inr bad ↦ let e : false ≡ true = rw bad at h in cc e
        | inl good ↦ rw good (elim (Bool-cases (length s == 0)) [
          | inl empty ↦
              let s_is = nil_of_length s empty in
              rw empty (record {
                delta = s;
                hashed = hashed;
                passed = no_ready ∙ sym s_is;
                rest = ap (λ l. s ++ l) no_input ∙ append-nil s;
                breaks = whole ∙ sym whole_v;
                ends_well = λ e. (no_input, whole, good);
              })
          | inr some_bytes ↦ rw some_bytes (record {
            delta = s;
            hashed = hashed;
            passed = take-append-drop n s;
            rest = ap (λ l. s ++ l) no_input ∙ append-nil s;
            breaks = whole ∙ sym whole_v;
            ends_well = λ e. (no_input, whole, good);
          })
        ])
      ]

  at_end-broken :
      (n : ℕ) (s : Bytes) (v : Reader) → v.breaks ≡ true → at_end sha256 p n s v ≡ stop broken v
  unfolding at_end
  at_end-broken n s v h = ground arith

  at_end-empty :
      (n : ℕ) (s : Bytes) (v : Reader)
      → v.breaks ≡ false
      → (length s == 0) ≡ true
      → at_end sha256 p n s v ≡ finish_forward sha256 n s (record v { done = true })
  unfolding at_end
  at_end-empty n s v h e = ground arith

  at_end-refused :
      (n : ℕ) (s : Bytes) (v : Reader)
      → v.breaks ≡ false
      → (length s == 0) ≡ false
      → (write sha256 p s v.tracker).0 ≡ false
      → (at_end sha256 p n s v).status ≡ refused
  unfolding at_end
  at_end-refused n s v h e w = ground arith

  at_end-written :
      (n : ℕ) (s : Bytes) (v : Reader)
      → v.breaks ≡ false
      → (length s == 0) ≡ false
      → (write sha256 p s v.tracker).0 ≡ true
      → at_end sha256 p n s v
        ≡ finish_forward sha256 n s
            (record v { done = true; tracker = (write sha256 p s v.tracker).1 })
  unfolding at_end
  at_end-written n s v h e w = ground arith

  at_end-IsFed :
      (n : ℕ) (s : Bytes) (v : Reader)
      → v.ready ≡ []
      → v.input ≡ []
      → is_ok (at_end sha256 p n s v).status ≡ true
      → IsFed s v (at_end sha256 p n s v)
  at_end-IsFed n s v no_ready no_input h = elim (Bool-cases v.breaks) [
    | inl breaks ↦ let e : false ≡ true = rw (at_end-broken n s v breaks) at h in cc e
    | inr whole ↦ elim (Bool-cases (length s == 0)) [
      | inl empty ↦
          let same = at_end-empty n s v whole empty in
          rw same (
            finish_forward-IsFed n s v (record v { done = true }) no_input no_ready whole whole
              (sym (append-nil v.tracker.hashed)
                ∙ ap (λ l. v.tracker.hashed ++ l) (sym (nil_of_length s empty)))
              (rw same at h))
      | inr some_bytes ↦ elim (Bool-cases (write sha256 p s v.tracker).0) [
        | inr bad ↦
            let e : false ≡ true = rw (at_end-refused n s v whole some_bytes bad) at h in cc e
        | inl good ↦
            let same = at_end-written n s v whole some_bytes good in
            rw same (
              finish_forward-IsFed n s v
                (record v { done = true; tracker = (write sha256 p s v.tracker).1 }) no_input
                no_ready whole whole (hashed-write s v.tracker good) (rw same at h))
      ]
    ]
  ]

  -- One byte of the loop.
  gather-too_long :
      (n : ℕ) (s : Bytes) (q : Quoting) (c : ℕ) (input : Bytes) (v : Reader)
      → too_long p s v.tracker ≡ true
      → (gather sha256 p n s q (c ∷ input) v).status ≡ refused
  unfolding gather
  gather-too_long n s q c input v h = rw h

  gather-closes :
      (n : ℕ) (s : Bytes) (q : Quoting) (c : ℕ) (input : Bytes) (v : Reader)
      → too_long p s v.tracker ≡ false
      → (not (in_quotes c q) && c == 59) ≡ true
      → gather sha256 p n s q (c ∷ input) v
        ≡ forward sha256 p n (s ++ c ∷ []) (record v { input = input })
  unfolding gather
  gather-closes n s q c input v h e = rw (h, e)

  gather-goes_on :
      (n : ℕ) (s : Bytes) (q : Quoting) (c : ℕ) (input : Bytes) (v : Reader)
      → too_long p s v.tracker ≡ false
      → (not (in_quotes c q) && c == 59) ≡ false
      → gather sha256 p n s q (c ∷ input) v
        ≡ gather sha256 p n (s ++ c ∷ []) (quote_step c q) input v
  unfolding gather
  gather-goes_on n s q c input v h e = rw (h, e)

  gather-end :
      (n : ℕ) (s : Bytes) (q : Quoting) (v : Reader)
      → gather sha256 p n s q [] v ≡ at_end sha256 p n s (record v { input = [] })
  unfolding gather
  gather-end n s q v = refl

  -- IsFed does not look at the input of the reader that it starts from.
  moved :
      (fed input : Bytes) (v : Reader) (o : Outcome)
      → IsFed fed (record v { input = input }) o
      → IsFed fed v o
  moved fed input v o f = record {
    delta = f.delta;
    hashed = f.hashed;
    passed = f.passed;
    rest = f.rest;
    breaks = f.breaks;
    ends_well = f.ends_well;
  }

  pub gather-IsFed :
      (n : ℕ) (s : Bytes) (q : Quoting) (input : Bytes) (v : Reader)
      → v.ready ≡ []
      → v.done ≡ false
      → is_ok (gather sha256 p n s q input v).status ≡ true
      → IsFed (s ++ input) v (gather sha256 p n s q input v)
  gather-IsFed n s q [] v no_ready live h =
      let same = gather-end n s q v in
      rw same (
        subst (λ l. IsFed l v (at_end sha256 p n s (record v { input = [] }))) (sym (append-nil s))
          (moved s [] v (at_end sha256 p n s (record v { input = [] }))
            (at_end-IsFed n s (record v { input = [] }) no_ready refl (rw same at h))))
  gather-IsFed n s q (c ∷ input) v no_ready live h = elim (Bool-cases (too_long p s v.tracker)) [
    | inl over ↦ let e : false ≡ true = rw (gather-too_long n s q c input v over) at h in cc e
    | inr fits ↦ elim (Bool-cases (not (in_quotes c q) && c == 59)) [
      | inl closes ↦
          let same = gather-closes n s q c input v fits closes in
          rw same (
            subst (λ l. IsFed l v (forward sha256 p n (s ++ c ∷ []) (record v { input = input })))
              (append_assoc s (c ∷ []) input)
              (moved ((s ++ c ∷ []) ++ input) input v
                (forward sha256 p n (s ++ c ∷ []) (record v { input = input }))
                (forward-IsFed n (s ++ c ∷ []) (record v { input = input }) live (rw same at h))))
      | inr goes_on ↦
          let same = gather-goes_on n s q c input v fits goes_on in
          rw same (
            subst (λ l. IsFed l v (gather sha256 p n (s ++ c ∷ []) (quote_step c q) input v))
              (append_assoc s (c ∷ []) input)
              (gather-IsFed n (s ++ c ∷ []) (quote_step c q) input v no_ready live (rw same at h)))
    ]
  ]
