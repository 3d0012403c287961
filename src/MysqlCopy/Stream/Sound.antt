-- ===== src/MysqlCopy/Stream/Sound.antt =====
-- The tracker's invariant: its bounds and its accounting.
use runner.Prelude.{
  ℕ, ◌+◌, ◌≤◌, Bool, true, false, ◌||◌, leb, List, [], ◌∷◌, ◌++◌, none, some, ◌≡◌, refl, sym, ◌∙◌,
  inl, inr, arith, length, length-append, sum, map, any, All, All-append, Bool-cases, Option-cases,
  ||_split, not_leb→lt,
}
use runner.Prelude.Bytes.{Bytes, bytes_eq, has_prefix, codes, trim_space}
use runner.MysqlCopy.Plan.{Plan, identifier}
use runner.MysqlCopy.Schema.{normalize_schema}
use runner.MysqlCopy.Stream.{
  TableTrack, Ledger, named, table_name, create_head, insert_head, lookup, add_row, is_some,
  create_table, insert_into, statement_of, statement,
}

-- A table of this name is tracked.
abbrev pub tracked : Bytes → List TableTrack → Bool
tracked n tables = any (λ v. bytes_eq v.name n) tables

-- No two tracks have one name.
abbrev pub AreDistinct : List TableTrack → Type 0
AreDistinct [] = Unit
AreDistinct (v ∷ tables) = (tracked v.name tables ≡ false) × AreDistinct tables

abbrev pub all_rows : List TableTrack → ℕ
all_rows tables = sum (map (λ v. v.rows) tables)

-- What every accepted statement keeps of the ledger.
pub record IsSound (p : Plan) (l : Ledger) : Type 0 where
  pub tables_bounded : length l.tables ≤ p.max_tables
  pub rows_bounded : l.rows ≤ p.max_rows
  pub rows_summed : l.rows ≡ all_rows l.tables
  pub named : All (λ v. identifier v.name ≡ true) l.tables
  pub distinct : AreDistinct l.tables

table_name-identifier : (head s n : Bytes) → table_name head s ≡ some n → identifier n ≡ true
unfolding table_name named
table_name-identifier head s n h = ground arith

tracked-lookup :
    (n : Bytes) (tables : List TableTrack) → is_some (lookup n tables) ≡ tracked n tables
unfolding lookup
tracked-lookup n [] = refl
tracked-lookup n (v ∷ tables) = ground (arith, tracked-lookup n tables)

tracked-snoc :
    (n : Bytes) (tables : List TableTrack) (w : TableTrack)
    → tracked n (tables ++ w ∷ []) ≡ (tracked n tables || bytes_eq w.name n)
tracked-snoc n [] w = ground arith
tracked-snoc n (v ∷ tables) w = ground (arith, tracked-snoc n tables w)

bytes_eq_comm : (a b : Bytes) → bytes_eq a b ≡ false → bytes_eq b a ≡ false
unfolding bytes_eq
bytes_eq_comm [] [] h = h
bytes_eq_comm [] (y ∷ b) h = refl
bytes_eq_comm (x ∷ a) [] h = refl
bytes_eq_comm (x ∷ a) (y ∷ b) h = ground (arith, bytes_eq_comm a b)

distinct-snoc :
    (tables : List TableTrack) (w : TableTrack)
    → AreDistinct tables
    → tracked w.name tables ≡ false
    → AreDistinct (tables ++ w ∷ [])
distinct-snoc [] w h new = (refl, tt)
distinct-snoc (v ∷ tables) w h new =
    let (differ, rest) = ||_split (bytes_eq v.name w.name) (tracked w.name tables) new in
    (
      rw (tracked-snoc v.name tables w, h.0, bytes_eq_comm v.name w.name differ),
      distinct-snoc tables w h.1 rest,
    )

all_rows-snoc :
    (tables : List TableTrack) (w : TableTrack)
    → all_rows (tables ++ w ∷ []) ≡ all_rows tables + w.rows
all_rows-snoc [] w = omega arith
all_rows-snoc (v ∷ tables) w = omega (arith, all_rows-snoc tables w)

-- An added row changes no name, and adds one row where the table is tracked.
length-add_row :
    (n s : Bytes) (tables : List TableTrack) → length (add_row n s tables) ≡ length tables
unfolding add_row
length-add_row n s [] = refl
length-add_row n s (v ∷ tables) = ground (arith, length-add_row n s tables)

tracked-add_row :
    (m n s : Bytes) (tables : List TableTrack) → tracked m (add_row n s tables) ≡ tracked m tables
unfolding add_row
tracked-add_row m n s [] = refl
tracked-add_row m n s (v ∷ tables) = ground (arith, tracked-add_row m n s tables)

distinct-add_row :
    (n s : Bytes) (tables : List TableTrack) → AreDistinct tables → AreDistinct (add_row n s tables)
unfolding add_row
distinct-add_row n s [] h = tt
distinct-add_row n s (v ∷ tables) h = elim (Bool-cases (bytes_eq v.name n)) [
  | inl same ↦ rw same h
  | inr differ ↦
      rw differ (tracked-add_row v.name n s tables ∙ h.0, distinct-add_row n s tables h.1)
]

named-add_row :
    (n s : Bytes) (tables : List TableTrack)
    → All (λ v. identifier v.name ≡ true) tables
    → All (λ v. identifier v.name ≡ true) (add_row n s tables)
unfolding add_row
named-add_row n s [] h = tt
named-add_row n s (v ∷ tables) h = elim (Bool-cases (bytes_eq v.name n)) [
  | inl same ↦ rw same h
  | inr differ ↦ rw differ (h.0, named-add_row n s tables h.1)
]

all_rows-add_row :
    (n s : Bytes) (tables : List TableTrack)
    → tracked n tables ≡ true
    → all_rows (add_row n s tables) ≡ all_rows tables + 1
unfolding add_row
all_rows-add_row n s [] h = cc h
all_rows-add_row n s (v ∷ tables) h = ground (arith, all_rows-add_row n s tables)

module _ (sha256 : Bytes → Bytes) (p : Plan) where
  -- The track of a new table.
  abbrev new_track : Bytes → Bytes → TableTrack
  new_track n s = record { name = n; schema = sha256 (normalize_schema s); rows = 0; hashed = [] }

  create_table-cases :
      (n s : Bytes) (l m : Ledger)
      → create_table sha256 p n s l ≡ some m
      → (leb p.max_tables (length l.tables) ≡ false)
        × (is_some (lookup n l.tables) ≡ false)
        × (m ≡ record l { tables = l.tables ++ new_track n s ∷ [] })
  unfolding create_table
  create_table-cases n s l m e = ground arith

  create_table-IsSound :
      (n s : Bytes) (l m : Ledger)
      → identifier n ≡ true
      → IsSound p l
      → create_table sha256 p n s l ≡ some m
      → IsSound p m
  create_table-IsSound n s l m word h e =
      let (room, new, m_is) = create_table-cases n s l m e in
      let w = new_track n s in
      rw m_is (record {
        tables_bounded = omega (arith, length-append l.tables (w ∷ []), not_leb→lt _ _ room);
        rows_bounded = h.rows_bounded;
        rows_summed = omega (arith, h.rows_summed, all_rows-snoc l.tables w);
        named = All-append (λ v. identifier v.name ≡ true) l.tables (w ∷ []) h.named (word, tt);
        distinct = distinct-snoc l.tables w h.distinct (sym (tracked-lookup n l.tables) ∙ new);
      })

  insert_into-cases :
      (n s : Bytes) (l m : Ledger)
      → insert_into p n s l ≡ some m
      → (is_some (lookup n l.tables) ≡ true)
        × (leb p.max_rows l.rows ≡ false)
        × (m ≡ record { tables = add_row n s l.tables; rows = l.rows + 1 })
  unfolding insert_into
  insert_into-cases n s l m e = ground arith

  insert_into-IsSound :
      (n s : Bytes) (l m : Ledger) → IsSound p l → insert_into p n s l ≡ some m → IsSound p m
  insert_into-IsSound n s l m h e =
      let (there, room, m_is) = insert_into-cases n s l m e in
      rw m_is (record {
        tables_bounded = omega (arith, length-add_row n s l.tables, h.tables_bounded);
        rows_bounded = omega (arith, not_leb→lt _ _ room);
        rows_summed = omega (
          arith,
          h.rows_summed,
          all_rows-add_row n s l.tables (sym (tracked-lookup n l.tables) ∙ there),
        );
        named = named-add_row n s l.tables h.named;
        distinct = distinct-add_row n s l.tables h.distinct;
      })

  statement_of-IsSound :
      (s : Bytes) (l m : Ledger) → IsSound p l → statement_of sha256 p s l ≡ some m → IsSound p m
  unfolding statement_of
  statement_of-IsSound s l m h e = elim (Bool-cases (has_prefix (codes "/*!") s)) [
    | inl session ↦ let same : m ≡ l = ground arith in rw same h
    | inr other ↦ elim (Option-cases (table_name create_head s)) [
      | inr (n, created) ↦
          create_table-IsSound n s l m (table_name-identifier create_head s n created) h
            (rw (other, created) at e)
      | inl not_create ↦ elim (Option-cases (table_name insert_head s)) [
        | inr (n, inserted) ↦ insert_into-IsSound n s l m h (rw (other, not_create, inserted) at e)
        | inl not_insert ↦ let x : none ≡ some m = rw (other, not_create, not_insert) at e in cc x
      ]
    ]
  ]

  pub statement-IsSound :
      (raw : Bytes) (l m : Ledger) → IsSound p l → statement sha256 p raw l ≡ some m → IsSound p m
  unfolding statement
  statement-IsSound raw l m h e = statement_of-IsSound (trim_space raw) l m h e
