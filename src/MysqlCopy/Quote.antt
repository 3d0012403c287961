-- ===== src/MysqlCopy/Quote.antt =====
-- The quote scanner that internal/mysqlcopy repeats in normalizeSchema (schema.go), in
-- tracker.Write and singleValuesTuple (stream.go) and in validatedSQLReader.Read (reader.go): its
-- two variables, what a byte does to them, and whether the loop goes on to the next byte there.
use runner.Prelude.{ℕ, Bool, true, false, ◌||◌, not, ◌==◌, if◌then◌else◌}

-- `quote` is the quote character that is open, or 0.
pub record Quoting : Type 0 where
  pub quote : ℕ
  pub escape : Bool

abbrev pub unquoted : Quoting
unquoted = record { quote = 0; escape = false }

-- c == '\'' || c == '"' || c == '`'
abbrev pub is_quote : ℕ → Bool
is_quote c = c == 39 || c == 34 || c == 96

-- The byte is part of a quotation: the loops `continue`.
abbrev pub in_quotes : ℕ → Quoting → Bool
in_quotes c q = q.escape || not (q.quote == 0) || is_quote c

-- The variables behind the byte. 92 is the backslash.
abbrev pub quote_step : ℕ → Quoting → Quoting
quote_step c q =
    if q.escape
    then record q { escape = false }
    else if not (q.quote == 0)
    then (if c == 92
        then record q { escape = true }
        else if c == q.quote
        then record q { quote = 0 }
        else q)
    else if is_quote c
    then record q { quote = c }
    else q
