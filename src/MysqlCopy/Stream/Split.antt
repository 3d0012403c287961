-- ===== src/MysqlCopy/Stream/Split.antt =====
-- The byte-level tracker refines a statement-level one: what it accepts is a sequence of whole
-- statements, each accepted by tracker.statement.
use mathlib.Core.List.{append_assoc, append-nil}
use runner.Prelude.{
  ℕ, Bool, true, false, ◌&&◌, not, ◌==◌, ==_iff, leb, List, [], ◌∷◌, ◌++◌, Option, none, some, ◌≡◌,
  refl, sym, ap, ◌∙◌, inl, inr, arith, Bool-cases, Option-cases, All, length, &&_split,
}
use runner.Prelude.Bytes.{Bytes}
use runner.MysqlCopy.Plan.{Plan}
use runner.MysqlCopy.Quote.{Quoting, unquoted, in_quotes, quote_step}
use runner.MysqlCopy.Stream.{
  Ledger, Tracker, new_tracker, statement, close_statement, write_byte, write_bytes, write,
}
use runner.MysqlCopy.Stream.Chunks.{write-cases}

-- The quotes at the end of a text.
abbrev pub quotes_after : Bytes → Quoting → Quoting
quotes_after [] q = q
quotes_after (c ∷ s) q = quotes_after s (quote_step c q)

-- No semicolon of the text stands outside quotes.
abbrev pub has_no_end : Bytes → Quoting → Bool
has_no_end [] q = true
has_no_end (c ∷ s) q = not (not (in_quotes c q) && c == 59) && has_no_end s (quote_step c q)

-- A statement of a dump: a text that ends at its first semicolon outside quotes.
pub record IsStatement (s : Bytes) : Type 0 where
  pub body : Bytes
  pub text : s ≡ body ++ 59 ∷ []
  pub first : has_no_end body unquoted ≡ true
  pub closed : in_quotes 59 (quotes_after body unquoted) ≡ false

abbrev pub concat : List Bytes → Bytes
concat [] = []
concat (s ∷ ss) = s ++ concat ss

-- A tracker in the middle of a statement: its pending text has no end, and the quotes are the
-- pending text's own.
pub record IsBetween (t : Tracker) : Type 0 where
  pub unfinished : has_no_end t.pending unquoted ≡ true
  pub quotes : t.quoting ≡ quotes_after t.pending unquoted

module _ (sha256 : Bytes → Bytes) (p : Plan) where
  -- The statements one after the other, each on the ledger that the one before it left.
  abbrev pub run_statements : List Bytes → Ledger → Option Ledger
  run_statements [] l = some l
  run_statements (s ∷ ss) l = elim (statement sha256 p s l) [
    | none ↦ none
    | some m ↦ run_statements ss m
  ]

  -- A run of the loop on `b`: the statements that it closed, and what is left of the text.
  pub record IsSplit (b : Bytes) (t u : Tracker) : Type 0 where
    pub statements : List Bytes
    pub text : t.pending ++ b ≡ concat statements ++ u.pending
    pub whole : All IsStatement statements
    pub accepted : run_statements statements t.ledger ≡ some u.ledger
    pub between : IsBetween u

quotes_after-snoc :
    (s : Bytes) (c : ℕ) (q : Quoting)
    → quotes_after (s ++ c ∷ []) q ≡ quote_step c (quotes_after s q)
quotes_after-snoc [] c q = refl
quotes_after-snoc (d ∷ s) c q = quotes_after-snoc s c (quote_step d q)

has_no_end-snoc :
    (s : Bytes) (c : ℕ) (q : Quoting)
    → has_no_end s q ≡ true
    → not (not (in_quotes c (quotes_after s q)) && c == 59) ≡ true
    → has_no_end (s ++ c ∷ []) q ≡ true
has_no_end-snoc [] c q h e = rw e
has_no_end-snoc (d ∷ s) c q h e =
    let (head, rest) =
      &&_split (not (not (in_quotes d q) && d == 59)) (has_no_end s (quote_step d q)) h in
    rw head (has_no_end-snoc s c (quote_step d q) rest e)

-- Outside quotes the scanner is in its first state, and a semicolon leaves it there.
outside_quotes : (c : ℕ) (q : Quoting) → in_quotes c q ≡ false → q ≡ unquoted
outside_quotes c q h = ground arith

step_outside : (c : ℕ) (q : Quoting) → in_quotes c q ≡ false → quote_step c q ≡ unquoted
step_outside c q h = ground arith

pub new_tracker-IsBetween : IsBetween new_tracker
new_tracker-IsBetween = record { unfinished = refl; quotes = refl }

not_eq_true : (b : Bool) → b ≡ false → not b ≡ true
not_eq_true b h = ground arith

not-true : (b : Bool) → not b ≡ true → b ≡ false
not-true b h = ground arith

module _ (sha256 : Bytes → Bytes) (p : Plan) where
  run_statements-cons :
      (s : Bytes) (ss : List Bytes) (l m : Ledger)
      → statement sha256 p s l ≡ some m
      → run_statements sha256 p (s ∷ ss) l ≡ run_statements sha256 p ss m
  run_statements-cons s ss l m h = rw (h, run_statements)

  -- What one accepted byte does: it is pended, or it closes a statement.
  data ByteStep (c : ℕ) (t u : Tracker) : Type 0 where
    pend :
        u.pending ≡ t.pending ++ c ∷ []
        → u.ledger ≡ t.ledger
        → u.quoting ≡ quote_step c t.quoting
        → not (not (in_quotes c t.quoting) && c == 59) ≡ true
        → ByteStep c t u
    close :
        c ≡ 59
        → in_quotes c t.quoting ≡ false
        → u.pending ≡ []
        → u.quoting ≡ quote_step c t.quoting
        → statement sha256 p (t.pending ++ c ∷ []) t.ledger ≡ some u.ledger
        → ByteStep c t u

  close_statement-step :
      (c : ℕ) (t : Tracker)
      → c ≡ 59
      → in_quotes c t.quoting ≡ false
      → (close_statement sha256 p
          (record t { pending = t.pending ++ c ∷ []; quoting = quote_step c t.quoting })).0
        ≡ true
      → ByteStep c t
          (close_statement sha256 p
            (record t { pending = t.pending ++ c ∷ []; quoting = quote_step c t.quoting })).1
  unfolding close_statement
  close_statement-step c t semicolon outside h =
      elim (Option-cases (statement sha256 p (t.pending ++ c ∷ []) t.ledger)) [
        | inl refused ↦ let e : false ≡ true = rw (refused, close_statement) at h in cc e
        | inr (m, done) ↦ rw (done, close_statement) (close semicolon outside refl refl done)
      ]

  write_byte-step :
      (c : ℕ) (t : Tracker)
      → (write_byte sha256 p c t).0 ≡ true
      → ByteStep c t (write_byte sha256 p c t).1
  unfolding write_byte
  write_byte-step c t h = elim (Bool-cases (leb p.max_statement_bytes (length t.pending))) [
    | inl full ↦ let e : false ≡ true = rw full at h in cc e
    | inr room ↦
        let h' = rw room at h in
        rw room (elim (Bool-cases (not (in_quotes c t.quoting) && c == 59)) [
          | inr goes_on ↦ rw goes_on (pend refl refl refl (not_eq_true _ goes_on))
          | inl closes ↦
              let (outside, semicolon) = &&_split (not (in_quotes c t.quoting)) (c == 59) closes in
              rw closes (
                close_statement-step c t ((==_iff c 59).0 semicolon) (not-true _ outside)
                  (rw closes at h'))
        ])
  ]

  IsSplit-step :
      (c : ℕ) (b : Bytes) (t u v : Tracker)
      → IsBetween t
      → ByteStep c t u
      → (IsBetween u → IsSplit sha256 p b u v)
      → IsSplit sha256 p (c ∷ b) t v
  IsSplit-step c b t u v h (pend pended same quotes no_end) rest =
      let r = rest (record {
        unfinished =
            rw pended (has_no_end-snoc t.pending c unquoted h.unfinished (rw h.quotes at no_end));
        quotes =
            quotes
            ∙ ap (quote_step c) h.quotes
            ∙ sym (quotes_after-snoc t.pending c unquoted)
            ∙ ap (λ s. quotes_after s unquoted) (sym pended);
      }) in
      record {
        statements = r.statements;
        text = sym (append_assoc t.pending (c ∷ []) b) ∙ ap (λ s. s ++ b) (sym pended) ∙ r.text;
        whole = r.whole;
        accepted = ap (run_statements sha256 p r.statements) (sym same) ∙ r.accepted;
        between = r.between;
      }
  IsSplit-step c b t u v h (close semicolon outside emptied quotes done) rest =
      let r = rest (record {
        unfinished = rw emptied;
        quotes =
            quotes
            ∙ step_outside c t.quoting outside
            ∙ ap (λ s. quotes_after s unquoted) (sym emptied);
      }) in
      record {
        statements = (t.pending ++ c ∷ []) ∷ r.statements;
        text =
            sym (append_assoc t.pending (c ∷ []) b)
            ∙ ap (λ s. (t.pending ++ c ∷ []) ++ s) (ap (λ s. s ++ b) (sym emptied) ∙ r.text)
            ∙ sym (append_assoc (t.pending ++ c ∷ []) (concat r.statements) v.pending);
        whole = (
          record {
            body = t.pending;
            text = ap (λ d. t.pending ++ d ∷ []) semicolon;
            first = h.unfinished;
            closed = rw (sym h.quotes) (rw semicolon at outside);
          },
          r.whole,
        );
        accepted =
            run_statements-cons (t.pending ++ c ∷ []) r.statements t.ledger u.ledger done
            ∙ r.accepted;
        between = r.between;
      }

  write_bytes-IsSplit :
      (b : Bytes) (t : Tracker)
      → IsBetween t
      → (write_bytes sha256 p b t).0 ≡ true
      → IsSplit sha256 p b t (write_bytes sha256 p b t).1
  unfolding write_bytes
  write_bytes-IsSplit [] t h e = record {
    statements = [];
    text = append-nil t.pending;
    whole = tt;
    accepted = refl;
    between = h;
  }
  write_bytes-IsSplit (c ∷ b) t h e = elim (Bool-cases (write_byte sha256 p c t).0) [
    | inr refused ↦ let x : false ≡ true = rw refused at e in cc x
    | inl done ↦
        let u = (write_byte sha256 p c t).1 in
        rw done (
          IsSplit-step c b t u (write_bytes sha256 p b u).1 h (write_byte-step c t done)
            (λ between. write_bytes-IsSplit b u between (rw done at e)))
  ]

  -- A stream that Write accepts, from a tracker in the middle of a statement (a new one is), is a
  -- sequence of whole statements and an unfinished rest: each statement ends at its first
  -- semicolon outside quotes, tracker.statement has accepted every one on the ledger that the ones
  -- before it left, the tracker's tables and rows are theirs, and the rest is what is pending.
  pub write-IsSplit :
      (b : Bytes) (t t1 : Tracker)
      → IsBetween t
      → write sha256 p b t ≡ (true, t1)
      → IsSplit sha256 p b t t1
  write-IsSplit b t t1 h e =
      let (done, t1_is) = write-cases sha256 p b t t1 e in
      let r = write_bytes-IsSplit b t h done in
      rw t1_is (record {
        statements = r.statements;
        text = r.text;
        whole = r.whole;
        accepted = r.accepted;
        between = record { unfinished = r.between.unfinished; quotes = r.between.quotes };
      })
