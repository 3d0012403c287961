-- ===== src/MysqlCopy/Reader/Forward.antt =====
-- What validatedSQLReader forwards is what the tracker has validated.
use mathlib.Core.Path.{subst, ap₂}
use mathlib.Core.List.{append_assoc, append-nil}
use runner.Prelude.{
  ℕ, zero, suc, Bool, true, false, ◌==◌, if◌then◌else◌, List, [], ◌∷◌, ◌++◌, ◌≡◌, refl, sym, ap,
  ◌∙◌, inl, inr, arith, Bool-cases, length, take, drop, take-append-drop, &&_split,
}
use runner.Prelude.Bytes.{Bytes}
use runner.MysqlCopy.Plan.{Plan}
use runner.MysqlCopy.Quote.{unquoted}
use runner.MysqlCopy.Stream.{new_tracker, finish, is_some}
use runner.MysqlCopy.Reader.{Reader, fine, eof, Outcome, exhausted, serve, stop, gather, read}
use runner.MysqlCopy.Reader.Fed.{is_ok, nil_of_length, EndsWell, IsFed, gather-IsFed}

-- What holds of a reader that has handed on `f` of a stream `whole`, without an error.
pub record IsForwarding (sha256 : Bytes → Bytes) (whole f : Bytes) (v : Reader) : Type 0 where
  pub text : f ++ v.ready ≡ v.tracker.hashed
  pub rest : v.tracker.hashed ++ v.input ≡ whole
  pub ends_well : EndsWell sha256 v

module _ (sha256 : Bytes → Bytes) (p : Plan) (whole f : Bytes) where
  fed-IsForwarding :
      (v : Reader) (o : Outcome)
      → v.ready ≡ []
      → IsForwarding sha256 whole f v
      → IsFed sha256 p v.input v o
      → IsForwarding sha256 whole (f ++ o.output) o.next
  fed-IsForwarding v o no_ready h d = record {
    text =
        append_assoc f o.output o.next.ready
        ∙ ap₂ (λ a b. a ++ b) (sym (append-nil f) ∙ ap (λ r. f ++ r) (sym no_ready) ∙ h.text)
            d.passed
        ∙ sym d.hashed;
    rest =
        ap (λ l. l ++ o.next.input) d.hashed
        ∙ append_assoc v.tracker.hashed d.delta o.next.input
        ∙ ap (λ l. v.tracker.hashed ++ l) d.rest
        ∙ h.rest;
    ends_well = d.ends_well;
  }

  served-IsForwarding :
      (n : ℕ) (v : Reader)
      → IsForwarding sha256 whole f v
      → IsForwarding sha256 whole (f ++ (serve n v).output) (serve n v).next
  unfolding serve
  served-IsForwarding n v h = record {
    text =
        append_assoc f (take n v.ready) (drop n v.ready)
        ∙ ap (λ l. f ++ l) (take-append-drop n v.ready)
        ∙ h.text;
    rest = h.rest;
    ends_well = h.ends_well;
  }

  stopped-IsForwarding :
      (v : Reader) → IsForwarding sha256 whole f v → IsForwarding sha256 whole (f ++ []) v
  stopped-IsForwarding v h = rw (append-nil f) h

  read-served :
      (n : ℕ) (v : Reader)
      → (length v.ready == 0) ≡ false
      → read sha256 p (suc n) v ≡ serve (suc n) v
  unfolding read
  read-served n v h = rw h

  read-done :
      (n : ℕ) (v : Reader)
      → (length v.ready == 0) ≡ true
      → v.done ≡ true
      → read sha256 p (suc n) v ≡ stop eof v
  unfolding read
  read-done n v h e = ground arith

  read-live :
      (n : ℕ) (v : Reader)
      → (length v.ready == 0) ≡ true
      → v.done ≡ false
      → read sha256 p (suc n) v ≡ gather sha256 p (suc n) [] unquoted v.input v
  unfolding read
  read-live n v h e = ground arith

  read-zero : (v : Reader) → read sha256 p zero v ≡ stop fine v
  unfolding read
  read-zero v = refl

  -- A Read that returns nil or io.EOF keeps the account of the stream: the bytes handed on so far
  -- and those made ready are exactly the bytes that the tracker has validated and hashed, these
  -- and the input to come are the whole stream, and once the reader is done the input has ended in
  -- io.EOF and the tracker's Finish succeeds.
  pub read-IsForwarding :
      (n : ℕ) (v : Reader)
      → IsForwarding sha256 whole f v
      → is_ok (read sha256 p n v).status ≡ true
      → IsForwarding sha256 whole (f ++ (read sha256 p n v).output) (read sha256 p n v).next
  read-IsForwarding zero v h e = rw (read-zero v) (stopped-IsForwarding v h)
  read-IsForwarding (suc n) v h e = elim (Bool-cases (length v.ready == 0)) [
    | inr some_bytes ↦ rw (read-served n v some_bytes) (served-IsForwarding (suc n) v h)
    | inl empty ↦ elim (Bool-cases v.done) [
      | inl done ↦ rw (read-done n v empty done) (stopped-IsForwarding v h)
      | inr live ↦
          let no_ready = nil_of_length v.ready empty in
          let same = read-live n v empty live in
          rw same (
            fed-IsForwarding v (gather sha256 p (suc n) [] unquoted v.input v) no_ready h
              (gather-IsFed sha256 p (suc n) [] unquoted v.input v no_ready live (rw same at e)))
    ]
  ]

-- A reader at the start of a stream.
abbrev pub validate_reader : Bytes → Bool → Reader
validate_reader whole breaks = record {
  input = whole;
  breaks = breaks;
  tracker = new_tracker;
  ready = [];
  done = false;
}

module _ (sha256 : Bytes → Bytes) (p : Plan) where
  -- The buffers of a client, read one after the other up to the first error but io.EOF.
  abbrev pub read_all : List ℕ → Reader → Bytes × Bool × Reader
  read_all [] v = ([], true, v)
  read_all (n ∷ sizes) v =
      let o = read sha256 p n v in
      let rest = read_all sizes o.next in
      if is_ok o.status then (o.output ++ rest.0, rest.1, rest.2) else ([], false, o.next)

  read_all-IsForwarding :
      (whole f : Bytes) (sizes : List ℕ) (v : Reader)
      → IsForwarding sha256 whole f v
      → (read_all sizes v).1 ≡ true
      → IsForwarding sha256 whole (f ++ (read_all sizes v).0) (read_all sizes v).2
  read_all-IsForwarding whole f [] v h e = rw (append-nil f) h
  read_all-IsForwarding whole f (n ∷ sizes) v h e =
      elim (Bool-cases (is_ok (read sha256 p n v).status)) [
        | inr bad ↦ let x : false ≡ true = rw bad at e in cc x
        | inl good ↦
            let o = read sha256 p n v in
            let step = read-IsForwarding sha256 p whole f n v h good in
            rw good (
              subst (λ l. IsForwarding sha256 whole l (read_all sizes o.next).2)
                (append_assoc f o.output (read_all sizes o.next).0)
                (read_all-IsForwarding whole (f ++ o.output) sizes o.next step (rw good at e)))
      ]

  exhausted-done : (v : Reader) → exhausted v ≡ true → (v.done ≡ true) × (v.ready ≡ [])
  unfolding exhausted
  exhausted-done v h =
      let (done, empty) = &&_split v.done (length v.ready == 0) h in
      (done, nil_of_length v.ready empty)

  -- Whatever the sizes of its buffers, a client that reads without an error until the reader is
  -- exhausted has received exactly the whole stream, byte for byte; the stream ended in io.EOF, the
  -- tracker has validated and hashed all of it, and its Finish succeeds.
  pub read_all-whole :
      (whole : Bytes) (breaks : Bool) (sizes : List ℕ)
      → let r = read_all sizes (validate_reader whole breaks) in
        r.1 ≡ true
        → exhausted r.2 ≡ true
        → (r.0 ≡ whole)
          × (r.2.tracker.hashed ≡ whole)
          × (r.2.breaks ≡ false)
          × (is_some (finish sha256 r.2.tracker) ≡ true)
  read_all-whole whole breaks sizes ok drained =
      let v = (read_all sizes (validate_reader whole breaks)).2 in
      let start : IsForwarding sha256 whole [] (validate_reader whole breaks) = record {
        text = refl;
        rest = refl;
        ends_well = λ e. cc e;
      } in
      let h = read_all-IsForwarding whole [] sizes (validate_reader whole breaks) start ok in
      let (done, no_ready) = exhausted-done v drained in
      let (no_input, ends, finished) = h.ends_well done in
      let all_hashed =
        sym (append-nil v.tracker.hashed)
        ∙ ap (λ l. v.tracker.hashed ++ l) (sym no_input)
        ∙ h.rest in
      (
        sym (append-nil (read_all sizes (validate_reader whole breaks)).0)
            ∙ ap (λ l. (read_all sizes (validate_reader whole breaks)).0 ++ l) (sym no_ready)
            ∙ h.text
            ∙ all_hashed,
        all_hashed,
        ends,
        finished,
      )
