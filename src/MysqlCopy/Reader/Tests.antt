-- ===== src/MysqlCopy/Reader/Tests.antt =====
-- A dump through the reader, in small buffers, and the witnesses.
use runner.Prelude.{ℕ, true, false, List, [], ◌∷◌, ◌++◌, ◌≡◌, refl}
use runner.Prelude.Bytes.{Bytes, codes, trim_space, bytes_eq, to_upper, contains}
use runner.MysqlCopy.Schema.{normalize_schema}
use runner.MysqlCopy.Stream.{
  finish, write, write_byte, statement, is_some, has_forbidden, engine_allowed,
}
use runner.MysqlCopy.Stream.Tests.{plain, small_plan}
use runner.MysqlCopy.Reader.{
  Reader, exhausted, serve, forward, finish_forward, at_end, gather, read,
}
use runner.MysqlCopy.Reader.Forward.{
  validate_reader, IsForwarding, read_all, read-IsForwarding, read_all-whole,
}
use runner.MysqlCopy.Reader.Fed.{is_ok}

-- A session statement, a line break, and the end.
abbrev session : Bytes
session = codes "/*!50503 SET character_set_client = utf8mb4 */;"

abbrev start : Reader
start = validate_reader session false

first_read_ok : is_ok (read plain small_plan 7 start).status ≡ true
unfolding read gather forward serve write write_byte statement trim_space bytes_eq
first_read_ok = refl

read-IsForwarding_example :
    IsForwarding plain session
      ([] ++ (read plain small_plan 7 start).output)
      (read plain small_plan 7 start).next
read-IsForwarding_example =
    read-IsForwarding plain small_plan session [] 7 start
      (record { text = refl; rest = refl; ends_well = λ e. cc e }) first_read_ok

abbrev one_table : Bytes
one_table = codes "CREATE TABLE `t` (a) ENGINE=InnoDB;"

abbrev sizes : List ℕ
sizes = 30 ∷ 30 ∷ 30 ∷ []

one_table_read : (read_all plain small_plan sizes (validate_reader one_table false)).1 ≡ true
unfolding read gather forward at_end finish_forward serve write write_byte statement trim_space
    bytes_eq has_forbidden engine_allowed to_upper contains normalize_schema finish
one_table_read = refl

one_table-exhausted :
    exhausted (read_all plain small_plan sizes (validate_reader one_table false)).2 ≡ true
unfolding exhausted read gather forward at_end finish_forward serve write write_byte statement
    trim_space bytes_eq has_forbidden engine_allowed to_upper contains normalize_schema finish
one_table-exhausted = refl

read_all-whole_example :
    let r = read_all plain small_plan sizes (validate_reader one_table false) in
    (r.0 ≡ one_table)
    × (r.2.tracker.hashed ≡ one_table)
    × (r.2.breaks ≡ false)
    × (is_some (finish plain r.2.tracker) ≡ true)
read_all-whole_example =
    read_all-whole plain small_plan one_table false sizes one_table_read one_table-exhausted
