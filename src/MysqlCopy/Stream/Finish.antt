-- ===== src/MysqlCopy/Stream/Finish.antt =====
-- tracker.Finish reports every table once, in the order of the names.
use mathlib.Core.List.{Perm}
use mathlib.Core.List.Perm
use runner.Prelude.Order.{bytes_le, bytes_le_total}
use runner.Prelude.{
  true, false, List, [], ◌∷◌, some, ◌≡◌, ◌≢◌, sym, ap, ◌∙◌, inl, inr, arith, Bool-cases, map,
}
use runner.Prelude.Bytes.{Bytes, trim_space, bytes_eq, bytes_eq→eq}
use runner.MysqlCopy.Plan.{Proof}
use runner.MysqlCopy.Stream.{
  TableTrack, Tracker, insert_sorted, sort_tables, is_nil, table_proof, finish,
}

-- Each name is at most the next.
abbrev pub IsSorted : List TableTrack → Type 0
IsSorted [] = Unit
IsSorted (v ∷ []) = Unit
IsSorted (v ∷ w ∷ tables) = (bytes_le v.name w.name ≡ true) × IsSorted (w ∷ tables)

insert_sorted-perm :
    (v : TableTrack) (tables : List TableTrack) → Perm (v ∷ tables) (insert_sorted v tables)
unfolding insert_sorted
insert_sorted-perm v [] = Perm.refl (v ∷ [])
insert_sorted-perm v (w ∷ tables) = elim (Bool-cases (bytes_le v.name w.name)) [
  | inl le ↦ rw le (Perm.refl (v ∷ w ∷ tables))
  | inr gt ↦ rw gt (Perm.trans (Perm.swap w v tables) (Perm.cons w (insert_sorted-perm v tables)))
]

sort_tables-perm : (tables : List TableTrack) → Perm tables (sort_tables tables)
unfolding sort_tables
sort_tables-perm [] = Perm.refl []
sort_tables-perm (v ∷ tables) =
    Perm.trans (Perm.cons v (sort_tables-perm tables)) (insert_sorted-perm v (sort_tables tables))

-- Below a name that is at most both.
insert_sorted-below :
    (u v : TableTrack) (tables : List TableTrack)
    → bytes_le u.name v.name ≡ true
    → IsSorted (u ∷ tables)
    → IsSorted (insert_sorted v tables)
    → IsSorted (u ∷ insert_sorted v tables)
unfolding insert_sorted
insert_sorted-below u v [] le h k = (le, tt)
insert_sorted-below u v (w ∷ tables) le h k = elim (Bool-cases (bytes_le v.name w.name)) [
  | inl first ↦ rw (first, insert_sorted) (le, rw (first, insert_sorted) at k)
  | inr later ↦ rw (later, insert_sorted) (h.0, rw (later, insert_sorted) at k)
]

IsSorted-tail :
    (v : TableTrack) (tables : List TableTrack) → IsSorted (v ∷ tables) → IsSorted tables
IsSorted-tail v [] h = tt
IsSorted-tail v (w ∷ tables) h = h.1

insert_sorted-IsSorted :
    (v : TableTrack) (tables : List TableTrack)
    → IsSorted tables
    → IsSorted (insert_sorted v tables)
unfolding insert_sorted
insert_sorted-IsSorted v [] h = tt
insert_sorted-IsSorted v (w ∷ tables) h = elim (Bool-cases (bytes_le v.name w.name)) [
  | inl le ↦ rw le (le, h)
  | inr gt ↦ rw gt (
      insert_sorted-below w v tables (bytes_le_total v.name w.name gt) h
        (insert_sorted-IsSorted v tables (IsSorted-tail w tables h)))
]

sort_tables-IsSorted : (tables : List TableTrack) → IsSorted (sort_tables tables)
unfolding sort_tables
sort_tables-IsSorted [] = tt
sort_tables-IsSorted (v ∷ tables) =
    insert_sorted-IsSorted v (sort_tables tables) (sort_tables-IsSorted tables)

-- A proof that reports the tracks of a tracker.
pub record IsReport (sha256 : Bytes → Bytes) (t : Tracker) (r : Proof) : Type 0 where
  pub order : List TableTrack
  pub same_tables : Perm t.ledger.tables order
  pub sorted : IsSorted order
  pub tables : r.tables ≡ map (table_proof sha256) order
  pub nonempty : t.ledger.tables ≢ []
  pub bytes : r.bytes ≡ t.bytes
  pub digest : r.sha256 ≡ sha256 t.hashed
  pub live : t.failed ≡ false
  pub unquoted : t.quoting.quote ≡ 0
  pub nothing_pending : trim_space t.pending ≡ []

module _ (sha256 : Bytes → Bytes) where
  finish-cases :
      (t : Tracker) (r : Proof)
      → finish sha256 t ≡ some r
      → (t.failed ≡ false)
        × (t.quoting.quote ≡ 0)
        × (bytes_eq (trim_space t.pending) [] ≡ true)
        × (is_nil t.ledger.tables ≡ false)
        × (r ≡ record {
          bytes = t.bytes;
          sha256 = sha256 t.hashed;
          tables = map (table_proof sha256) (sort_tables t.ledger.tables);
        })
  unfolding finish
  finish-cases t r h = ground arith

  -- A tracker that finishes has not failed, stands outside quotes with nothing but blanks pending,
  -- and has a table. Its proof reports exactly the tracked tables, each once with its rows, schema
  -- hash and row hash, in the order of their names, and the bytes counted and hashed.
  pub finish-IsReport : (t : Tracker) (r : Proof) → finish sha256 t ≡ some r → IsReport sha256 t r
  unfolding is_nil
  finish-IsReport t r h =
      let (live, closed, blank, some_table, r_is) = finish-cases t r h in
      record {
        order = sort_tables t.ledger.tables;
        same_tables = sort_tables-perm t.ledger.tables;
        sorted = sort_tables-IsSorted t.ledger.tables;
        tables = ap (λ (q : Proof). q.tables) r_is;
        nonempty = λ e. let x : true ≡ false = sym (ap is_nil e) ∙ some_table in cc x;
        bytes = ap (λ (q : Proof). q.bytes) r_is;
        digest = ap (λ (q : Proof). q.sha256) r_is;
        live = live;
        unquoted = closed;
        nothing_pending = bytes_eq→eq (trim_space t.pending) [] blank;
      }
