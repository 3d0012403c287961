-- ===== src/MysqlCopy/Stream.antt =====
-- internal/mysqlcopy/stream.go: the tracker that validates a dump while it passes. A hash.Hash is
-- the bytes written to it; `sha256` gives the hex digest of its sum.
pub mod Sound
pub mod Tracking
pub mod Chunks
pub mod Split
pub mod Finish
pub mod Tests
use mathlib.Core.List.{foldr}
use runner.Prelude.Order.{bytes_le}
use runner.Prelude.{
  ℕ, ◌+◌, String, Bool, true, false, ◌&&◌, ◌||◌, not, ◌==◌, leb, ltb, str_eq, if◌then◌else◌, List,
  [], ◌∷◌, ◌++◌, Option, none, some, ℤ, pos, inc, dec, is_zero, is_negative, length, drop, any, map,
}
use runner.Prelude.Bytes.{
  Bytes, codes, bytes_eq, cut_prefix, has_prefix, find_suffix, contains, trim_space, to_upper,
}
use runner.Prelude.Regex.{is_digit, one_of, span}
use runner.MysqlCopy.Plan.{Plan, identifier, is_word, TableProof, Proof}
use runner.MysqlCopy.Quote.{Quoting, unquoted, in_quotes, quote_step}
use runner.MysqlCopy.Schema.{normalize_schema}

-- tableTrack, under its key in the map. `hashed` is what its hash was given.
pub record TableTrack : Type 0 where
  pub name : Bytes
  pub schema : Bytes
  pub rows : ℕ
  pub hashed : Bytes

-- The fields of the tracker that a statement reads and writes.
pub record Ledger : Type 0 where
  pub tables : List TableTrack
  pub rows : ℕ

pub record Tracker : Type 0 where
  pub bytes : ℕ
  pub hashed : Bytes
  pub pending : Bytes
  pub quoting : Quoting
  pub ledger : Ledger
  pub failed : Bool

abbrev pub empty_ledger : Ledger
empty_ledger = record { tables = []; rows = 0 }

abbrev pub new_tracker : Tracker
new_tracker = record {
  bytes = 0;
  hashed = [];
  pending = [];
  quoting = unquoted;
  ledger = empty_ledger;
  failed = false;
}

-- createTable and insertTable: ^<head>`([A-Za-z][A-Za-z0-9_]{0,63})` , with the first submatch.
named : Bytes × Bytes → Option Bytes
unfolding identifier has_prefix
named (run, rest) = if identifier run && has_prefix (codes "` ") rest then some run else none

unfoldable pub table_name : Bytes → Bytes → Option Bytes
unfolding cut_prefix span named
table_name head s = elim (cut_prefix head s) [ none ↦ none | some rest ↦ named (span is_word rest) ]

abbrev pub create_head : Bytes
create_head = codes "CREATE TABLE `"

abbrev pub insert_head : Bytes
insert_head = codes "INSERT INTO `"

-- \s of the regular expressions
abbrev is_blank : ℕ → Bool
is_blank c = c == 9 || c == 10 || c == 12 || c == 13 || c == 32

-- \s+=\s+ at the head of a text
behind_blanks : Bytes × Bytes → Option Bytes
behind_blanks ([], rest) = none
behind_blanks (c ∷ run, rest) = some rest

blanks : Bytes → Option Bytes
unfolding span behind_blanks
blanks s = behind_blanks (span is_blank s)

equals_sign : Bytes → Option Bytes
unfolding blanks cut_prefix
equals_sign s = elim (blanks s) [
  | none ↦ none
  | some rest ↦ elim (cut_prefix (codes "=") rest) [ none ↦ none | some more ↦ blanks more ]
]

-- One of the assignments, by its left side and a literal right side, and ` */;` to the end.
assigns : String → String → Bytes → Bool
unfolding cut_prefix equals_sign bytes_eq
assigns left right s = elim (cut_prefix (codes left) s) [
  | none ↦ false
  | some rest ↦ elim (equals_sign rest) [
    | none ↦ false
    | some more ↦ elim (cut_prefix (codes right) more) [
      | none ↦ false
      | some end ↦ bytes_eq end (codes " */;")
    ]
  ]
]

version_digits : Bytes → Option Bytes
unfolding cut_prefix
version_digits (a ∷ b ∷ c ∷ d ∷ e ∷ rest) =
    if is_digit a && is_digit b && is_digit c && is_digit d && is_digit e
    then cut_prefix (codes " SET ") rest
    else none
version_digits _ = none

-- sessionSet.MatchString
unfoldable pub session_set : Bytes → Bool
unfolding cut_prefix version_digits assigns
session_set s = elim (cut_prefix (codes "/*!") s) [
  | none ↦ false
  | some rest ↦ elim (version_digits rest) [
    | none ↦ false
    | some body ↦
        assigns "@saved_cs_client" "@@character_set_client" body
        || assigns "character_set_client" "utf8mb4" body
        || assigns "character_set_client" "@saved_cs_client" body
  ]
]

-- singleValuesTuple
tuple_loop : Quoting → ℤ → Bytes → Bool
unfolding bytes_eq trim_space
tuple_loop q depth [] = false
tuple_loop q depth (c ∷ rest) =
    let next = tuple_loop (quote_step c q) depth rest in
    let opened = tuple_loop (quote_step c q) (inc depth) rest in
    let closed = tuple_loop (quote_step c q) (dec depth) rest in
    if in_quotes c q
    then next
    else if c == 40
    then opened
    else if c == 41
    then (if is_zero (dec depth)
        then bytes_eq (trim_space rest) (codes ";")
        else if is_negative (dec depth)
        then false
        else closed)
    else next

unfoldable pub single_values_tuple : Bytes → Bool
unfolding tuple_loop
single_values_tuple s = tuple_loop unquoted (pos 0) s

-- t.tables[n]
unfoldable pub lookup : Bytes → List TableTrack → Option TableTrack
unfolding bytes_eq
lookup n [] = none
lookup n (v ∷ tables) = if bytes_eq v.name n then some v else lookup n tables

-- v.rows++ and v.hash.Write for the track of one table.
unfoldable pub add_row : Bytes → Bytes → List TableTrack → List TableTrack
unfolding bytes_eq
add_row n s [] = []
add_row n s (v ∷ tables) =
    if bytes_eq v.name n
    then record v { rows = v.rows + 1; hashed = v.hashed ++ s } ∷ tables
    else v ∷ add_row n s tables

-- What a CREATE TABLE may not contain.
abbrev pub forbidden : List String
forbidden = "DATA DIRECTORY" ∷ "INDEX DIRECTORY" ∷ "TABLESPACE" ∷ "DEFINER" ∷ "SELECT " ∷ "/*" ∷ []

-- The engine test of a CREATE TABLE in upper case.
unfoldable pub engine_allowed : Plan → Bytes → Bool
unfolding contains
engine_allowed p u =
    contains u (codes "ENGINE=INNODB")
    || str_eq p.ddl_mode "quiescence"
      && (contains u (codes "ENGINE=MYISAM") || contains u (codes "ENGINE=MEMORY"))

-- The loop over `forbidden`, on a statement in upper case.
unfoldable pub has_forbidden : Bytes → Bool
unfolding contains
has_forbidden u = any (λ bad. contains u (codes bad)) forbidden

abbrev pub is_some {ℓ} : {A : Type ℓ} → Option A → Bool
is_some none = false
is_some (some a) = true

module _ (sha256 : Bytes → Bytes) where
  create_table : Plan → Bytes → Bytes → Ledger → Option Ledger
  unfolding lookup
  create_table p n s l =
      if leb p.max_tables (length l.tables) || is_some (lookup n l.tables)
      then none
      else if has_forbidden (to_upper s)
      then none
      else if not (engine_allowed p (to_upper s))
      then none
      else some (record l {
        tables =
            l.tables
            ++ record { name = n; schema = sha256 (normalize_schema s); rows = 0; hashed = [] }
              ∷ [];
      })

insert_into : Plan → Bytes → Bytes → Ledger → Option Ledger
unfolding lookup find_suffix single_values_tuple add_row
insert_into p n s l =
    if not (is_some (lookup n l.tables)) || leb p.max_rows l.rows
    then none
    else elim (find_suffix (codes " VALUES (") s) [
      | none ↦ none
      | some tail ↦
          if single_values_tuple (drop 8 tail)
          then some (record { tables = add_row n s l.tables; rows = l.rows + 1 })
          else none
    ]

-- The end of tracker.Write, behind its loop.
count_bytes : Bytes → Bool × Tracker → Bool × Tracker
count_bytes b (false, t) = (false, t)
count_bytes b (true, t) = (true, record t { bytes = t.bytes + length b; hashed = t.hashed ++ b })

module _ (sha256 : Bytes → Bytes) where
  -- The tests of tracker.statement in their order, on the trimmed text.
  statement_of : Plan → Bytes → Ledger → Option Ledger
  unfolding session_set create_table insert_into table_name has_prefix
  statement_of p s l =
      if has_prefix (codes "/*!") s
      then (if session_set s then some l else none)
      else elim (table_name create_head s) [
        | some n ↦ create_table sha256 p n s l
        | none ↦ elim (table_name insert_head s) [ some n ↦ insert_into p n s l | none ↦ none ]
      ]

  -- tracker.statement: none is ErrUnsafe.
  unfoldable pub statement : Plan → Bytes → Ledger → Option Ledger
  unfolding statement_of trim_space
  statement p raw l = statement_of p (trim_space raw) l

  -- What tracker.Write does behind a semicolon outside quotes.
  close_statement : Plan → Tracker → Bool × Tracker
  close_statement p t = elim (statement p t.pending t.ledger) [
    | none ↦ (false, record t { failed = true })
    | some l ↦ (true, record t { pending = []; ledger = l })
  ]

  -- The body of the loop of tracker.Write: false where it returns ErrUnsafe.
  unfoldable pub write_byte : Plan → ℕ → Tracker → Bool × Tracker
  unfolding close_statement
  write_byte p c t =
      let t1 = record t { pending = t.pending ++ c ∷ []; quoting = quote_step c t.quoting } in
      if leb p.max_statement_bytes (length t.pending)
      then (false, record t { failed = true })
      else if not (in_quotes c t.quoting) && c == 59
      then close_statement p t1
      else (true, t1)

  unfoldable pub write_bytes : Plan → Bytes → Tracker → Bool × Tracker
  write_bytes p [] t = (true, t)
  write_bytes p (c ∷ b) t =
      let (done, t1) = write_byte p c t in
      let rest = write_bytes p b t1 in if done then rest else (false, t1)

  -- tracker.Write: true where it returns len(b) and nil, false where it returns ErrUnsafe.
  unfoldable pub write : Plan → Bytes → Tracker → Bool × Tracker
  unfolding write_bytes count_bytes
  write p b t =
      if t.failed || ltb p.max_bytes (t.bytes + length b)
      then (false, record t { failed = true })
      else count_bytes b (write_bytes p b t)

-- sort.Strings over the keys, with their tracks.
unfoldable pub insert_sorted : TableTrack → List TableTrack → List TableTrack
unfolding bytes_le
insert_sorted v [] = v ∷ []
insert_sorted v (w ∷ tables) =
    if bytes_le v.name w.name then v ∷ w ∷ tables else w ∷ insert_sorted v tables

unfoldable pub sort_tables : List TableTrack → List TableTrack
unfolding insert_sorted
sort_tables [] = []
sort_tables (v ∷ tables) = insert_sorted v (sort_tables tables)

is_nil : List TableTrack → Bool
is_nil [] = true
is_nil (v ∷ tables) = false

module _ (sha256 : Bytes → Bytes) where
  abbrev pub table_proof : TableTrack → TableProof
  table_proof v = record {
    name = v.name;
    rows = v.rows;
    schema_sha256 = v.schema;
    rows_sha256 = sha256 v.hashed;
  }

  -- tracker.Finish: none is ErrUnsafe.
  unfoldable pub finish : Tracker → Option Proof
  unfolding is_nil
  finish t =
      if t.failed
        || not (t.quoting.quote == 0)
        || not (bytes_eq (trim_space t.pending) [])
        || is_nil t.ledger.tables
      then none
      else some (record {
        bytes = t.bytes;
        sha256 = sha256 t.hashed;
        tables = map (table_proof) (sort_tables t.ledger.tables);
      })
