-- ===== src/MysqlCopy/Schema.antt =====
-- internal/mysqlcopy/schema.go: normalizeSchema.
mod Only
mod Tests
use runner.Prelude.{
  ℕ, Bool, true, false, ◌&&◌, ◌||◌, not, ◌==◌, if◌then◌else◌, List, [], ◌∷◌, ◌++◌, Option, none,
  some, ℤ, pos, inc, dec, is_zero,
}
use runner.Prelude.Bytes.{Bytes, codes, cut_prefix}
use runner.Prelude.Regex.{is_digit, span}
use runner.MysqlCopy.Quote.{Quoting, unquoted, in_quotes, quote_step}

-- The variables of the loop but for the index: quote, escape and depth.
pub record Scan : Type 0 where
  pub quoting : Quoting
  pub depth : ℤ

abbrev pub start : Scan
start = record { quoting = unquoted; depth = pos 0 }

-- What a byte does to them: 40 and 41 are the parentheses.
abbrev pub scan_byte : ℕ → Scan → Scan
scan_byte c s =
    if in_quotes c s.quoting
    then record s { quoting = quote_step c s.quoting }
    else if c == 40
    then record s { depth = inc s.depth }
    else if c == 41
    then record s { depth = dec s.depth }
    else s

-- The byte stands where a table option may: none of the loop's tests has passed it over.
abbrev pub outside : ℕ → Scan → Bool
outside c s = not (in_quotes c s.quoting) && not (c == 40) && not (c == 41) && is_zero s.depth

-- Behind the number: the end of the text, a space or a semicolon.
abbrev pub at_boundary : Bytes → Bool
at_boundary [] = true
at_boundary (c ∷ s) = c == 32 || c == 59

abbrev pub auto_increment : Bytes
auto_increment = codes "AUTO_INCREMENT="

number_end : Bytes × Bytes → Option Bytes
number_end ([], rest) = none
number_end (d ∷ run, rest) = if at_boundary rest then some rest else none

-- s[end:], where s[i:] begins with the option and its number.
option_end : Bytes → Option Bytes
unfolding cut_prefix span number_end
option_end s = elim (cut_prefix auto_increment s) [
  | none ↦ none
  | some rest ↦ number_end (span is_digit rest)
]

abbrev pub to_list : Option ℕ → Bytes
to_list none = []
to_list (some c) = c ∷ []

abbrev is_blank : Option ℕ → Bool
is_blank none = false
is_blank (some c) = c == 32

-- The loop at index i: `front` is s[:i-1], `prev` is s[i-1] (none if i is 0), the last argument is
-- s[i:]. The result is none where the loop runs to the end.
normalize_loop : Scan → Bytes → Option ℕ → Bytes → Option Bytes
unfolding option_end
normalize_loop st front prev [] = none
normalize_loop st front prev (c ∷ rest) =
    let next = normalize_loop (scan_byte c st) (front ++ to_list prev) (some c) rest in
    if outside c st && is_blank prev
    then elim (option_end (c ∷ rest)) [ none ↦ next | some tail ↦ some (front ++ tail) ]
    else next

-- normalizeSchema
unfoldable pub normalize_schema : Bytes → Bytes
unfolding normalize_loop
normalize_schema s = elim (normalize_loop start [] none s) [ none ↦ s | some cut ↦ cut ]
