-- ===== src/Prelude/Regex.antt =====
-- What the regular expressions of the source are made of: character classes, runs of a class, and
-- bounded repetitions, over the code points of the text.
use Prim.Native.Nat.{ℕ}
use mathlib.Core.Bool.{Bool, false, ◌&&◌, ◌||◌}
use mathlib.Core.List.{[], ◌∷◌}
use runner.Prelude.Tests.{leb, ◌==◌, if◌then◌else◌}
use runner.Prelude.Lists.{length, all}
use runner.Prelude.Bytes.{Bytes}

-- [0-9], [a-z], [A-Z] and their unions
abbrev pub is_digit : ℕ → Bool
is_digit c = leb 48 c && leb c 57

abbrev pub is_lower : ℕ → Bool
is_lower c = leb 97 c && leb c 122

abbrev pub is_upper : ℕ → Bool
is_upper c = leb 65 c && leb c 90

abbrev pub is_letter : ℕ → Bool
is_letter c = is_lower c || is_upper c

abbrev pub is_hex : ℕ → Bool
is_hex c = is_digit c || leb 97 c && leb c 102

abbrev pub one_of : Bytes → ℕ → Bool
one_of [] c = false
one_of (x ∷ xs) c = c == x || one_of xs c

-- The longest run of a class at the head of a text, and what is left.
unfoldable pub span : (ℕ → Bool) → Bytes → Bytes × Bytes
span p [] = ([], [])
span p (c ∷ s) = let (run, rest) = span p s in if p c then (c ∷ run, rest) else ([], c ∷ s)

-- ^[first][rest]{0,n}$
unfoldable pub matches_word : (ℕ → Bool) → (ℕ → Bool) → ℕ → Bytes → Bool
matches_word first rest n [] = false
matches_word first rest n (c ∷ s) = first c && all rest s && leb (length s) n

-- ^[ends]([middle]*[ends])?$
unfoldable pub ends_in : (ℕ → Bool) → (ℕ → Bool) → Bytes → Bool
ends_in ends middle [] = false
ends_in ends middle (c ∷ []) = ends c
ends_in ends middle (c ∷ d ∷ s) = middle c && ends_in ends middle (d ∷ s)

unfoldable pub matches_ends : (ℕ → Bool) → (ℕ → Bool) → Bytes → Bool
unfolding ends_in
matches_ends ends middle [] = false
matches_ends ends middle (c ∷ []) = ends c
matches_ends ends middle (c ∷ d ∷ s) = ends c && ends_in ends middle (d ∷ s)

-- ^[class]{n}$
unfoldable pub matches_exactly : (ℕ → Bool) → ℕ → Bytes → Bool
matches_exactly p n s = all p s && length s == n
