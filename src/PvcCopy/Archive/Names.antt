-- ===== src/PvcCopy/Archive/Names.antt =====
-- internal/pvccopy/archive.go: validPath, and what it uses of utf8, fs, path and strings.
use runner.Prelude.{
  ℕ, ◌-◌, Bool, false, ◌&&◌, ◌||◌, not, List, [], ◌∷◌, Option, none, some, leb, ◌==◌, if◌then◌else◌,
  all, any, length,
}
use runner.Prelude.Bytes.{Bytes, codes, bytes_eq, has_prefix}

-- A sequence of UTF-8 as far as it was read: `more` bytes are missing, the next one between `low`
-- and `high`.
pub record Sequence : Type 0 where
  pub more : ℕ
  pub low : ℕ
  pub high : ℕ

abbrev sequence : ℕ → ℕ → ℕ → Sequence
sequence more low high = record { more = more; low = low; high = high }

abbrev between : ℕ → ℕ → ℕ → Bool
between low high c = leb low c && leb c high

-- The sequence that a first byte opens.
unfoldable pub first_byte : ℕ → Option Sequence
first_byte c =
    if leb c 127
    then some (sequence 0 0 0)
    else if between 194 223 c
    then some (sequence 1 128 191)
    else if c == 224
    then some (sequence 2 160 191)
    else if c == 237
    then some (sequence 2 128 159)
    else if between 225 239 c
    then some (sequence 2 128 191)
    else if c == 240
    then some (sequence 3 144 191)
    else if between 241 243 c
    then some (sequence 3 128 191)
    else if c == 244
    then some (sequence 3 128 143)
    else none

unfoldable pub next_byte : Sequence → ℕ → Option Sequence
unfolding first_byte
next_byte q c =
    if q.more == 0
    then first_byte c
    else if between q.low q.high c
    then some (sequence (q.more - 1) 128 191)
    else none

unfoldable pub utf8_from : Sequence → Bytes → Bool
unfolding next_byte
utf8_from q [] = q.more == 0
utf8_from q (c ∷ s) = elim (next_byte q c) [ none ↦ false | some r ↦ utf8_from r s ]

-- utf8.ValidString
unfoldable pub utf8_valid : Bytes → Bool
unfolding utf8_from
utf8_valid s = utf8_from (sequence 0 0 0) s

-- The elements of a path, between its slashes.
abbrev put_first : ℕ → List Bytes → List Bytes
put_first c [] = (c ∷ []) ∷ []
put_first c (e ∷ es) = (c ∷ e) ∷ es

unfoldable pub elements : Bytes → List Bytes
elements [] = [] ∷ []
elements (c ∷ s) = let es = elements s in if c == 47 then [] ∷ es else put_first c es

abbrev valid_element : Bytes → Bool
valid_element e =
    not (length e == 0) && not (bytes_eq e (codes ".")) && not (bytes_eq e (codes ".."))

-- fs.ValidPath
unfoldable pub fs_valid_path : Bytes → Bool
unfolding elements utf8_valid
fs_valid_path s = utf8_valid s && (bytes_eq s (codes ".") || all valid_element (elements s))

abbrev pub state_directory : Bytes
state_directory = codes ".envplane-pvccopy"

abbrev special : ℕ → Bool
special c = c == 92 || c == 0 || c == 13 || c == 10

-- validPath; path.Clean keeps what fs.ValidPath accepts.
unfoldable pub valid_path : Bytes → Bool
unfolding fs_valid_path has_prefix
valid_path s =
    not (bytes_eq s (codes "."))
    && not (length s == 0)
    && leb (length s) 1024
    && fs_valid_path s
    && not (any special s)
    && not (bytes_eq s state_directory)
    && not (has_prefix (codes ".envplane-pvccopy/") s)

-- path.Dir of a name that is "." or a valid path.
unfoldable pub before_last_slash : Bytes → Option Bytes
before_last_slash [] = none
before_last_slash (c ∷ s) = elim (before_last_slash s) [
  | some d ↦ some (c ∷ d)
  | none ↦ if c == 47 then some [] else none
]

unfoldable pub dir : Bytes → Bytes
unfolding before_last_slash
dir s = elim (before_last_slash s) [ some d ↦ d | none ↦ codes "." ]
