-- ===== src/PvcCopy/Quantity.antt =====
-- internal/pvccopy/domain.go: quantityBytes, the bytes of a Kubernetes quantity.
mod Tests
use mathlib.Core.Path.{subst}
use native.Mathlib.Nat.{div-add-mod', mod-lt, add-mul, one-le-pow}
use runner.Prelude.{
  not_leb→lt, ||_split, ℕ, ◌+◌, ◌-◌, ◌*◌, ◌/◌, ◌%◌, ◌^◌, ◌≤◌, ◌<◌, Bool, true, false, ◌≡◌, refl,
  ◌∙◌, ◌||◌, List, [], ◌∷◌, ◌++◌, Option, none, some, ltb, leb, ◌==◌, if◌then◌else◌, length, arith,
  Bool-cases, Option-cases, inl, inr, ==_iff,
}
use runner.Prelude.Bytes.{Bytes, codes, bytes_eq}
use runner.Prelude.Regex.{is_digit, span}

-- `multipliers`, under the key that is read.
abbrev lookup : Bytes → List (Bytes × ℕ) → Option ℕ
lookup key [] = none
lookup key ((k, n) ∷ rest) = if bytes_eq k key then some n else lookup key rest

unfoldable pub multiplier : Bytes → Option ℕ
multiplier key = lookup key (
    ([], 1)
    ∷ (codes "Ki", 2 ^ 10)
    ∷ (codes "Mi", 2 ^ 20)
    ∷ (codes "Gi", 2 ^ 30)
    ∷ (codes "Ti", 2 ^ 40)
    ∷ (codes "Pi", 2 ^ 50)
    ∷ (codes "Ei", 2 ^ 60)
    ∷ (codes "k", 10 ^ 3)
    ∷ (codes "M", 10 ^ 6)
    ∷ (codes "G", 10 ^ 9)
    ∷ (codes "T", 10 ^ 12)
    ∷ (codes "P", 10 ^ 15)
    ∷ (codes "E", 10 ^ 18)
    ∷ [])

-- `SetString`: the value of decimal digits, behind those of value n.
unfoldable pub decimal : ℕ → Bytes → ℕ
decimal n [] = n
decimal n (c ∷ s) = decimal (n * 10 + (c - 48)) s

-- The quantity as a fraction: the digits in front of the dot and behind it, and the suffix.
abbrev fraction_of : Bytes → Bytes → Option ℕ → Option (ℕ × ℕ)
fraction_of whole_part decimals none = none
fraction_of whole_part decimals (some m) =
    some (decimal 0 (whole_part ++ decimals) * m, 10 ^ length decimals)

abbrev behind_dot : Bytes → Bytes × Bytes → Option (ℕ × ℕ)
behind_dot whole_part ([], rest) = none
behind_dot whole_part (c ∷ decimals, rest) = fraction_of whole_part (c ∷ decimals) (multiplier rest)

abbrev behind_digits : Bytes × Bytes → Option (ℕ × ℕ)
behind_digits ([], rest) = none
behind_digits (d ∷ digits, []) = fraction_of (d ∷ digits) [] (multiplier [])
behind_digits (d ∷ digits, c ∷ rest) =
    if c == 46
    then behind_dot (d ∷ digits) (span is_digit rest)
    else fraction_of (d ∷ digits) [] (multiplier (c ∷ rest))

-- quantityPattern, the numerator and the denominator of what it reads.
unfoldable pub quantity_fraction : Bytes → Option (ℕ × ℕ)
unfolding span multiplier decimal
quantity_fraction s = behind_digits (span is_digit s)

-- The quotient, rounded up.
unfoldable pub round_up : ℕ → ℕ → ℕ
round_up num den = if num % den == 0 then num / den else num / den + 1

abbrev in_int64 : ℕ → Option ℕ
in_int64 q = if q == 0 || leb (2 ^ 63) q then none else some q

abbrev rounded : Option (ℕ × ℕ) → Option ℕ
rounded none = none
rounded (some (num, den)) = in_int64 (round_up num den)

-- quantityBytes
unfoldable pub quantity_bytes : Bytes → Option ℕ
unfolding quantity_fraction round_up
quantity_bytes s = rounded (quantity_fraction s)

-- The number is a quantity, rounded up.
pub record IsLeast (s : Bytes) (q : ℕ) : Type 0 where
  pub num : ℕ
  pub den : ℕ
  pub is_fraction : quantity_fraction s ≡ some (num, den)
  pub at_least : num ≤ q * den
  pub less_above : q * den < num + den
  pub is_positive : 0 < q
  pub fits : q < 2 ^ 63

positive : (n : ℕ) → (n == 0) ≡ false → 0 < n
positive n h = ground arith

fraction_of_positive :
    (w d : Bytes) (m : Option ℕ) (f : ℕ × ℕ) → fraction_of w d m ≡ some f → 0 < f.1
fraction_of_positive w d none f h = cc h
fraction_of_positive w d (some m) f h =
    let same : 10 ^ length d ≡ f.1 = cc h in
    subst (λ x. 0 < x) same (one-le-pow (length d) 10 (omega arith))

behind_dot_positive :
    (w : Bytes) (x : Bytes × Bytes) (f : ℕ × ℕ) → behind_dot w x ≡ some f → 0 < f.1
behind_dot_positive w ([], rest) f h = cc h
behind_dot_positive w (c ∷ d, rest) f h = fraction_of_positive w (c ∷ d) (multiplier rest) f h

behind_digits_positive : (x : Bytes × Bytes) (f : ℕ × ℕ) → behind_digits x ≡ some f → 0 < f.1
behind_digits_positive ([], rest) f = λ h. cc h
behind_digits_positive (d ∷ w, []) f = λ h. fraction_of_positive (d ∷ w) [] (multiplier []) f h
behind_digits_positive (d ∷ w, c ∷ rest) f = elim (Bool-cases (c == 46)) [
  | inl dot ↦ rw dot (λ h. behind_dot_positive (d ∷ w) (span is_digit rest) f h)
  | inr other ↦ rw other (λ h. fraction_of_positive (d ∷ w) [] (multiplier (c ∷ rest)) f h)
]

denominator_positive : (s : Bytes) (f : ℕ × ℕ) → quantity_fraction s ≡ some f → 0 < f.1
unfolding quantity_fraction
denominator_positive s f h = behind_digits_positive (span is_digit s) f h

round_up_bounds :
    (num den : ℕ) → 0 < den → (num ≤ round_up num den * den) × (round_up num den * den < num + den)
unfolding round_up
round_up_bounds num den h =
    let split = div-add-mod' num den in
    elim (Bool-cases (num % den == 0)) [
      | inl exact ↦
          let none_left = (==_iff (num % den) 0).0 exact in
          rw exact (omega (arith, split, none_left), omega (arith, split, none_left, h))
      | inr more ↦
          let small = mod-lt num h in
          let some_left = positive (num % den) more in
          rw (more, add-mul (num / den) 1 den)
            (omega (arith, split, small), omega (arith, split, some_left))
    ]

in_int64-some : (n q : ℕ) → in_int64 n ≡ some q → (n ≡ q) × (0 < q) × (q < 2 ^ 63)
in_int64-some n q = elim (Bool-cases (n == 0 || leb (2 ^ 63) n)) [
  | inl bad ↦ rw bad (λ h. cc h)
  | inr good ↦
      let (positive_, small) = ||_split (n == 0) (leb (2 ^ 63) n) good in
      rw good (λ h.
        let same : n ≡ q = cc h in
        (
          same,
          omega (arith, same, positive n positive_),
          omega (arith, same, not_leb→lt (2 ^ 63) n small),
        ))
]

rounded-IsLeast :
    (s : Bytes) (q : ℕ) (o : Option (ℕ × ℕ))
    → quantity_fraction s ≡ o
    → rounded o ≡ some q
    → IsLeast s q
rounded-IsLeast s q none e h = cc h
rounded-IsLeast s q (some (num, den)) e h =
    let (same, positive_, small) = in_int64-some (round_up num den) q h in
    let (above, below) = round_up_bounds num den (denominator_positive s (num, den) e) in
    record {
      num = num;
      den = den;
      is_fraction = e;
      at_least = subst (λ x. num ≤ x * den) same above;
      less_above = subst (λ x. x * den < num + den) same below;
      is_positive = positive_;
      fits = small;
    }

-- Where quantityBytes returns a number, the text is a quantity, and the number is that quantity
-- rounded up to a whole: at least it, and less than 1 above it; and it is positive and fits into 63 bits.
pub quantity_bytes-IsLeast : (s : Bytes) (q : ℕ) → quantity_bytes s ≡ some q → IsLeast s q
unfolding quantity_bytes
quantity_bytes-IsLeast s q h = rounded-IsLeast s q (quantity_fraction s) refl h
