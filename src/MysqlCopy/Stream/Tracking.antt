-- ===== src/MysqlCopy/Stream/Tracking.antt =====
-- The tracker keeps its invariant through every call of Write.
use mathlib.Core.Path.{subst}
use runner.Prelude.{
  ℕ, ◌+◌, ◌≤◌, Bool, false, ◌&&◌, ◌||◌, not, ◌==◌, leb, ltb, [], ◌∷◌, ◌++◌, ◌≡◌, sym, ap, inl, inr,
  arith, length, length-append, Bool-cases, Option-cases, ||_split, not_leb→lt, not_ltb→le,
}
use runner.Prelude.Bytes.{Bytes}
use runner.MysqlCopy.Plan.{Plan}
use runner.MysqlCopy.Quote.{in_quotes, quote_step}
use runner.MysqlCopy.Stream.Chunks.{write_bytes-keeps}
use runner.MysqlCopy.Stream.{
  Tracker, new_tracker, statement, close_statement, write_byte, write_bytes, write, count_bytes,
}
use runner.MysqlCopy.Stream.Sound.{IsSound, statement-IsSound}

pair_eq : (r : Bool × Tracker) {b : Bool} → r.0 ≡ b → r ≡ (b, r.1)
pair_eq (b, t) h = ap (λ d. (d, t)) h

-- The invariant of a tracker between two calls of Write.
pub record IsSoundTracker (p : Plan) (t : Tracker) : Type 0 where
  pub ledger : IsSound p t.ledger
  pub pending_bounded : length t.pending ≤ p.max_statement_bytes
  pub bytes_bounded : t.bytes ≤ p.max_bytes
  pub bytes_counted : t.bytes ≡ length t.hashed

pub new_tracker-IsSound : (p : Plan) → IsSoundTracker p new_tracker
new_tracker-IsSound p = omega arith

module _ (sha256 : Bytes → Bytes) (p : Plan) where
  close_statement-IsSound :
      (t : Tracker) → IsSoundTracker p t → IsSoundTracker p (close_statement sha256 p t).1
  unfolding close_statement
  close_statement-IsSound t h = elim (Option-cases (statement sha256 p t.pending t.ledger)) [
    | inl refused ↦
        rw (refused, close_statement)
          (record {
            ledger = h.ledger;
            pending_bounded = h.pending_bounded;
            bytes_bounded = h.bytes_bounded;
            bytes_counted = h.bytes_counted;
          })
    | inr (m, done) ↦
        rw (done, close_statement)
          (record {
            ledger = statement-IsSound sha256 p t.pending t.ledger m h.ledger done;
            pending_bounded = omega arith;
            bytes_bounded = h.bytes_bounded;
            bytes_counted = h.bytes_counted;
          })
  ]

  -- The tracker with one more byte in its pending statement.
  abbrev pub pended : ℕ → Tracker → Tracker
  pended c t = record t { pending = t.pending ++ c ∷ []; quoting = quote_step c t.quoting }

  pended-IsSound :
      (c : ℕ) (t : Tracker)
      → IsSoundTracker p t
      → leb p.max_statement_bytes (length t.pending) ≡ false
      → IsSoundTracker p (pended c t)
  pended-IsSound c t h room = record {
    ledger = h.ledger;
    pending_bounded = omega (arith, not_leb→lt _ _ room, length-append t.pending (c ∷ []));
    bytes_bounded = h.bytes_bounded;
    bytes_counted = h.bytes_counted;
  }

  write_byte-IsSound :
      (c : ℕ) (t : Tracker) → IsSoundTracker p t → IsSoundTracker p (write_byte sha256 p c t).1
  unfolding write_byte
  write_byte-IsSound c t h = elim (Bool-cases (leb p.max_statement_bytes (length t.pending))) [
    | inl full ↦ rw full (record {
      ledger = h.ledger;
      pending_bounded = h.pending_bounded;
      bytes_bounded = h.bytes_bounded;
      bytes_counted = h.bytes_counted;
    })
    | inr room ↦ rw room (elim (Bool-cases (not (in_quotes c t.quoting) && c == 59)) [
      | inl closes ↦ rw closes (close_statement-IsSound (pended c t) (pended-IsSound c t h room))
      | inr goes_on ↦ rw goes_on (pended-IsSound c t h room)
    ])
  ]

  write_bytes-IsSound :
      (b : Bytes) (t : Tracker) → IsSoundTracker p t → IsSoundTracker p (write_bytes sha256 p b t).1
  unfolding write_bytes
  write_bytes-IsSound [] t h = h
  write_bytes-IsSound (c ∷ b) t h = elim (Bool-cases (write_byte sha256 p c t).0) [
    | inl done ↦
        rw done (write_bytes-IsSound b (write_byte sha256 p c t).1 (write_byte-IsSound c t h))
    | inr refused ↦ rw refused (write_byte-IsSound c t h)
  ]

  -- Every call of Write, accepted or refused, keeps the tracker's invariant: no more tables and
  -- rows than the plan allows, the row total the sum of the tables' rows, table names that are
  -- identifiers and no two alike, an unfinished statement within its bound, and a byte count
  -- within its bound that is the number of bytes hashed.
  pub write-IsSoundTracker :
      (b : Bytes) (t : Tracker) → IsSoundTracker p t → IsSoundTracker p (write sha256 p b t).1
  unfolding write count_bytes
  write-IsSoundTracker b t h =
      elim (Bool-cases (t.failed || ltb p.max_bytes (t.bytes + length b))) [
        | inl refused ↦ rw refused (record {
          ledger = h.ledger;
          pending_bounded = h.pending_bounded;
          bytes_bounded = h.bytes_bounded;
          bytes_counted = h.bytes_counted;
        })
        | inr fits ↦ rw fits (
            let (live, room) = ||_split t.failed (ltb p.max_bytes (t.bytes + length b)) fits in
            let after = write_bytes-IsSound b t h in
            elim (Bool-cases (write_bytes sha256 p b t).0) [
              | inr stopped ↦
                  subst (λ r. IsSoundTracker p (count_bytes b r).1)
                    (sym (pair_eq (write_bytes sha256 p b t) stopped)) after
              | inl done ↦
                  let (same_bytes, same_hashed, _) = write_bytes-keeps sha256 p b t done in
                  subst (λ r. IsSoundTracker p (count_bytes b r).1)
                    (sym (pair_eq (write_bytes sha256 p b t) done))
                    (record {
                      ledger = after.ledger;
                      pending_bounded = after.pending_bounded;
                      bytes_bounded = omega (arith, not_ltb→le _ _ room, same_bytes);
                      bytes_counted = omega (
                        arith,
                        after.bytes_counted,
                        length-append (write_bytes sha256 p b t).1.hashed b,
                      );
                    })
            ])
      ]
