-- ===== src/MysqlCopy/Reader.antt =====
-- internal/mysqlcopy/reader.go: validatedSQLReader, which forwards only whole validated statements.
-- The bufio.Reader is the bytes that are still to come, and whether they end in io.EOF or in
-- another error.
mod Fed
pub mod Forward
mod Tests
use runner.Prelude.{
  ℕ, zero, suc, ◌+◌, Bool, true, false, ◌&&◌, ◌||◌, not, ◌==◌, leb, if◌then◌else◌, List, [], ◌∷◌,
  ◌++◌, Option, none, some, length, take, drop,
}
use runner.Prelude.Bytes.{Bytes}
use runner.MysqlCopy.Plan.{Plan}
use runner.MysqlCopy.Quote.{Quoting, unquoted, in_quotes, quote_step}
use runner.MysqlCopy.Stream.{Tracker, write, finish, is_some}

pub record Reader : Type 0 where
  pub input : Bytes
  pub breaks : Bool
  pub tracker : Tracker
  -- The unread bytes of `ready`; a nil `ready` has none.
  pub ready : Bytes
  pub done : Bool

-- The error of a Read: nil, io.EOF, ErrUnsafe, or the error of the input.
pub data Status : Type 0 where
  fine eof refused broken : Status

pub record Outcome : Type 0 where
  pub output : Bytes
  pub status : Status
  pub next : Reader

-- exhausted
unfoldable pub exhausted : Reader → Bool
exhausted v = v.done && length v.ready == 0

-- v.ready.Read(p), for n = len(p)
unfoldable pub serve : ℕ → Reader → Outcome
serve n v = record {
  output = take n v.ready;
  status = fine;
  next = record v { ready = drop n v.ready };
}

abbrev pub stop : Status → Reader → Outcome
stop status v = record { output = []; status = status; next = v }

-- statement.Len() >= MaxStatementBytes || int64(statement.Len()) >= MaxBytes - bytes
abbrev pub too_long : Plan → Bytes → Tracker → Bool
too_long p statement t =
    leb p.max_statement_bytes (length statement) || leb p.max_bytes (t.bytes + length statement)

module _ (sha256 : Bytes → Bytes) where
  -- v.tracker.Write(statement.Bytes()), and the statement made ready.
  unfoldable pub forward : Plan → ℕ → Bytes → Reader → Outcome
  unfolding serve
  forward p n statement v =
      let r = write sha256 p statement v.tracker in
      if r.0
      then serve n (record v { tracker = r.1; ready = statement })
      else stop refused (record v { tracker = r.1 })

  -- The end of the input behind `statement`: Finish decides whether it is passed on.
  unfoldable pub finish_forward : ℕ → Bytes → Reader → Outcome
  unfolding serve
  finish_forward n statement v =
      if is_some (finish sha256 v.tracker)
      then (if length statement == 0 then stop eof v else serve n (record v { ready = statement }))
      else stop refused v

  unfoldable pub at_end : Plan → ℕ → Bytes → Reader → Outcome
  at_end p n statement v =
      let r = write sha256 p statement v.tracker in
      if v.breaks
      then stop broken v
      else if length statement == 0
      then finish_forward n statement (record v { done = true })
      else if r.0
      then finish_forward n statement (record v { done = true; tracker = r.1 })
      else stop refused (record v { done = true; tracker = r.1 })

  -- The loop of Read over the input, with its variables statement, quote and escape.
  unfoldable pub gather : Plan → ℕ → Bytes → Quoting → Bytes → Reader → Outcome
  gather p n statement q [] v = at_end p n statement (record v { input = [] })
  gather p n statement q (c ∷ input) v =
      let next = gather p n (statement ++ c ∷ []) (quote_step c q) input v in
      if too_long p statement v.tracker
      then stop refused (record v { input = input })
      else if not (in_quotes c q) && c == 59
      then forward p n (statement ++ c ∷ []) (record v { input = input })
      else next

  -- validatedSQLReader.Read, for a buffer of n bytes.
  unfoldable pub read : Plan → ℕ → Reader → Outcome
  read p zero v = stop fine v
  read p (suc n) v =
      let loop = gather p (suc n) [] unquoted v.input v in
      if not (length v.ready == 0) then serve (suc n) v else if v.done then stop eof v else loop
