-- ===== src/Prelude/Bytes.antt =====
-- Go's strings as the lists of their bytes, and what the source uses of package strings on them.
use Prim.Native.Nat.{ℕ, ◌+◌, ◌-◌}
use Prim.Native.Char.{code}
use Prim.Native.String.{String}
use mathlib.Core.Bool.{Bool, true, false, ◌&&◌, ◌||◌}
use mathlib.Core.Path.{◌≡◌, refl}
use mathlib.Core.List.{List, [], ◌∷◌, ◌++◌, reverse}
use mathlib.Core.Option.{Option, none, some}
use native.Mathlib.Omega.{arith}
use runner.Prelude.Tests.{leb, ltb, ◌==◌, if◌then◌else◌}

abbrev pub Bytes : Type 0
Bytes = List ℕ

-- The code points of a text: its bytes where it is ASCII, as every literal of the source is.
abbrev pub codes : String → Bytes
codes String.[] = []
codes (String.◌∷◌ c s) = code c ∷ codes s

-- The bytes of a code point in UTF-8.
abbrev rune_len : ℕ → ℕ
rune_len c = if ltb c 128 then 1 else if ltb c 2048 then 2 else if ltb c 65536 then 3 else 4

-- len of a native string, in bytes.
unfoldable pub len : String → ℕ
len String.[] = 0
len (String.◌∷◌ c s) = rune_len (code c) + len s

-- s == t
unfoldable pub bytes_eq : Bytes → Bytes → Bool
bytes_eq [] [] = true
bytes_eq [] (b ∷ t) = false
bytes_eq (a ∷ s) [] = false
bytes_eq (a ∷ s) (b ∷ t) = a == b && bytes_eq s t

pub bytes_eq_refl : (s : Bytes) → bytes_eq s s ≡ true
unfolding bytes_eq
bytes_eq_refl [] = refl
bytes_eq_refl (a ∷ s) = ground (arith, bytes_eq_refl s)

pub bytes_eq→eq : (s t : Bytes) → bytes_eq s t ≡ true → s ≡ t
unfolding bytes_eq
bytes_eq→eq [] [] h = refl
bytes_eq→eq [] (b ∷ t) h = cc
bytes_eq→eq (a ∷ s) [] h = cc
bytes_eq→eq (a ∷ s) (b ∷ t) h = ground (arith, bytes_eq→eq s t)

-- strings.CutPrefix: what is left behind the prefix.
unfoldable pub cut_prefix : Bytes → Bytes → Option Bytes
cut_prefix [] s = some s
cut_prefix (p ∷ ps) [] = none
cut_prefix (p ∷ ps) (c ∷ s) = let rest = cut_prefix ps s in if p == c then rest else none

pub cut_prefix-append : (p s r : Bytes) → cut_prefix p s ≡ some r → s ≡ p ++ r
unfolding cut_prefix
cut_prefix-append [] s r h = ground arith
cut_prefix-append (p ∷ ps) [] r h = cc
cut_prefix-append (p ∷ ps) (c ∷ s) r h = ground (arith, cut_prefix-append ps s r)

-- strings.HasPrefix
unfoldable pub has_prefix : Bytes → Bytes → Bool
unfolding cut_prefix
has_prefix p s = elim (cut_prefix p s) [ none ↦ false | some _ ↦ true ]

-- s[strings.Index(s, needle):], and none where the index is -1.
unfoldable pub find_suffix : Bytes → Bytes → Option Bytes
unfolding has_prefix
find_suffix needle [] = if has_prefix needle [] then some [] else none
find_suffix needle (c ∷ s) =
    let rest = find_suffix needle s in if has_prefix needle (c ∷ s) then some (c ∷ s) else rest

-- strings.Contains
unfoldable pub contains : Bytes → Bytes → Bool
unfolding find_suffix
contains s needle = elim (find_suffix needle s) [ none ↦ false | some _ ↦ true ]

-- The spaces of unicode.IsSpace that one byte encodes.
abbrev pub is_space : ℕ → Bool
is_space c = leb 9 c && leb c 13 || c == 32

-- The spaces that two bytes (U+0085, U+00A0) and three bytes encode.
abbrev is_space2 : ℕ → ℕ → Bool
is_space2 a b = a == 0xc2 && (b == 0x85 || b == 0xa0)

abbrev is_space3 : ℕ → ℕ → ℕ → Bool
is_space3 a b c =
    a == 0xe1 && b == 0x9a && c == 0x80
    || a == 0xe2 && b == 0x80 && (leb 0x80 c && leb c 0x8a || c == 0xa8 || c == 0xa9 || c == 0xaf)
    || a == 0xe2 && b == 0x81 && c == 0x9f
    || a == 0xe3 && b == 0x80 && c == 0x80

-- strings.TrimLeft by unicode.IsSpace, over UTF-8.
unfoldable pub trim_left : Bytes → Bytes
trim_left [] = []
trim_left (a ∷ []) = if is_space a then [] else a ∷ []
trim_left (a ∷ b ∷ []) =
    let one = trim_left (b ∷ []) in
    if is_space a then one else if is_space2 a b then [] else a ∷ b ∷ []
trim_left (a ∷ b ∷ c ∷ s) =
    let one = trim_left (b ∷ c ∷ s) in
    let two = trim_left (c ∷ s) in
    let three = trim_left s in
    if is_space a
    then one
    else if is_space2 a b
    then two
    else if is_space3 a b c
    then three
    else a ∷ b ∷ c ∷ s

-- The same from the right end, over the reversed bytes.
unfoldable pub trim_right_rev : Bytes → Bytes
trim_right_rev [] = []
trim_right_rev (a ∷ []) = if is_space a then [] else a ∷ []
trim_right_rev (b ∷ a ∷ []) =
    let one = trim_right_rev (a ∷ []) in
    if is_space b then one else if is_space2 a b then [] else b ∷ a ∷ []
trim_right_rev (c ∷ b ∷ a ∷ s) =
    let one = trim_right_rev (b ∷ a ∷ s) in
    let two = trim_right_rev (a ∷ s) in
    let three = trim_right_rev s in
    if is_space c
    then one
    else if is_space2 b c
    then two
    else if is_space3 a b c
    then three
    else c ∷ b ∷ a ∷ s

-- strings.TrimSpace
unfoldable pub trim_space : Bytes → Bytes
unfolding trim_left trim_right_rev
trim_space s = reverse (trim_right_rev (reverse (trim_left s)))

-- strings.ToUpper, as far as ASCII needles can tell: the two letters outside ASCII whose upper
-- case is inside it (U+0131 and U+017F) are mapped, and all others are left as they are.
unfoldable pub to_upper : Bytes → Bytes
to_upper [] = []
to_upper (a ∷ []) = (if leb 97 a && leb a 122 then a - 32 else a) ∷ []
to_upper (a ∷ b ∷ s) =
    let next = to_upper (b ∷ s) in
    let after = to_upper s in
    if leb 97 a && leb a 122
    then (a - 32) ∷ next
    else if a == 0xc4 && b == 0xb1
    then 73 ∷ after
    else if a == 0xc5 && b == 0xbf
    then 83 ∷ after
    else a ∷ next
