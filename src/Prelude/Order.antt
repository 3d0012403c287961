-- ===== src/Prelude/Order.antt =====
-- The order of Go's strings, byte by byte, and sort.Strings as a sort by insertion.
use mathlib.Core.Path.{◌≡◌, refl, sym}
use mathlib.Core.Logic.{inl, inr}
use mathlib.Core.Bool.{Bool, true, false, ◌&&◌, ◌||◌}
use mathlib.Core.List.{List, [], ◌∷◌}
use native.Mathlib.Omega.{arith}
use runner.Prelude.Tests.{ltb, ◌==◌, if◌then◌else◌, Bool-cases}
use runner.Prelude.Bytes.{Bytes}

-- s <= t
unfoldable pub bytes_le : Bytes → Bytes → Bool
bytes_le [] t = true
bytes_le (a ∷ s) [] = false
bytes_le (a ∷ s) (b ∷ t) = ltb a b || a == b && bytes_le s t

-- s < t
unfoldable pub bytes_less : Bytes → Bytes → Bool
bytes_less [] [] = false
bytes_less [] (b ∷ t) = true
bytes_less (a ∷ s) [] = false
bytes_less (a ∷ s) (b ∷ t) = ltb a b || a == b && bytes_less s t

pub bytes_le_total : (a b : Bytes) → bytes_le a b ≡ false → bytes_le b a ≡ true
unfolding bytes_le
bytes_le_total [] b h = cc h
bytes_le_total (x ∷ a) [] h = refl
bytes_le_total (x ∷ a) (y ∷ b) h = ground (arith, bytes_le_total a b)

pub bytes_le_antisym : (a b : Bytes) → bytes_le a b ≡ true → bytes_le b a ≡ true → a ≡ b
unfolding bytes_le
bytes_le_antisym [] [] h k = refl
bytes_le_antisym [] (y ∷ b) h k = cc k
bytes_le_antisym (x ∷ a) [] h k = cc h
bytes_le_antisym (x ∷ a) (y ∷ b) h k = ground (arith, bytes_le_antisym a b)

pub bytes_le_trans :
    (a b c : Bytes) → bytes_le a b ≡ true → bytes_le b c ≡ true → bytes_le a c ≡ true
unfolding bytes_le
bytes_le_trans [] b c h k = refl
bytes_le_trans (x ∷ a) [] c h k = cc h
bytes_le_trans (x ∷ a) (y ∷ b) [] h k = cc k
bytes_le_trans (x ∷ a) (y ∷ b) (z ∷ c) h k = ground (arith, bytes_le_trans a b c)

pub bytes_less_irrefl : (a : Bytes) → bytes_less a a ≡ false
unfolding bytes_less
bytes_less_irrefl [] = refl
bytes_less_irrefl (x ∷ a) = ground (arith, bytes_less_irrefl a)

pub bytes_less_trans :
    (a b c : Bytes) → bytes_less a b ≡ true → bytes_less b c ≡ true → bytes_less a c ≡ true
unfolding bytes_less
bytes_less_trans [] [] c h k = cc
bytes_less_trans [] (y ∷ b) [] h k = cc k
bytes_less_trans [] (y ∷ b) (z ∷ c) h k = refl
bytes_less_trans (x ∷ a) [] c h k = cc h
bytes_less_trans (x ∷ a) (y ∷ b) [] h k = cc k
bytes_less_trans (x ∷ a) (y ∷ b) (z ∷ c) h k = ground (arith, bytes_less_trans a b c)

-- sort.Strings and sort.Slice on keys, as a sort by insertion.
module _ {A : Type 0} (key : A → Bytes) where
  unfoldable pub insert_by : A → List A → List A
  insert_by a [] = a ∷ []
  insert_by a (b ∷ bs) =
      let rest = insert_by a bs in if bytes_le (key a) (key b) then a ∷ b ∷ bs else b ∷ rest

  unfoldable pub sort_by : List A → List A
  unfolding insert_by
  sort_by [] = []
  sort_by (a ∷ as_) = insert_by a (sort_by as_)

  insert_by_first :
      (a b : A) (xs : List A) → bytes_le (key a) (key b) ≡ true → insert_by a (b ∷ xs) ≡ a ∷ b ∷ xs
  unfolding insert_by
  insert_by_first a b xs h = rw h refl

  insert_by_later :
      (a b : A) (xs : List A)
      → bytes_le (key a) (key b) ≡ false
      → insert_by a (b ∷ xs) ≡ b ∷ insert_by a xs
  unfolding insert_by
  insert_by_later a b xs h = rw h refl

  insert_by_singleton : (a : A) → insert_by a [] ≡ a ∷ []
  unfolding insert_by
  insert_by_singleton a = refl

  not_before :
      (a b c : A)
      → bytes_le (key b) (key c) ≡ true
      → bytes_le (key a) (key c) ≡ false
      → bytes_le (key a) (key b) ≡ false
  not_before a b c h k = elim (Bool-cases (bytes_le (key a) (key b))) [
    | inl l ↦ cc (bytes_le_trans (key a) (key b) (key c) l h)
    | inr l ↦ l
  ]

  -- Insertions at the head commute.
  insert_by_comm_first :
      (a b : A) (xs : List A)
      → (key a ≡ key b → a ≡ b)
      → insert_by a xs ≡ a ∷ xs
      → insert_by b xs ≡ b ∷ xs
      → insert_by a (insert_by b xs) ≡ insert_by b (insert_by a xs)
  insert_by_comm_first a b xs same ha hb =
      rw (ha, hb)
        elim (Bool-cases (bytes_le (key a) (key b))) [
          | inl h ↦ elim (Bool-cases (bytes_le (key b) (key a))) [
            | inl k ↦ rw (same (bytes_le_antisym (key a) (key b) h k)) refl
            | inr k ↦ rw (insert_by_first a b xs h, insert_by_later b a xs k, hb) refl
          ]
          | inr h ↦
              rw
                (
                  insert_by_later a b xs h,
                  insert_by_first b a xs (bytes_le_total (key a) (key b) h),
                  ha,
                )
                refl
        ]

  -- a stands before x, and b after it
  insert_by_comm_apart :
      (a b x : A) (xs : List A)
      → bytes_le (key a) (key x) ≡ true
      → bytes_le (key b) (key x) ≡ false
      → insert_by a (insert_by b (x ∷ xs)) ≡ insert_by b (insert_by a (x ∷ xs))
  insert_by_comm_apart a b x xs h k =
      rw
        (
          insert_by_later b x xs k,
          insert_by_first a x (insert_by b xs) h,
          insert_by_first a x xs h,
          insert_by_later b a (x ∷ xs) (not_before b a x h k),
          insert_by_later b x xs k,
        )
        refl

  -- Insertions commute where equal keys mean equal elements.
  pub insert_by_comm :
      (a b : A) (xs : List A)
      → (key a ≡ key b → a ≡ b)
      → insert_by a (insert_by b xs) ≡ insert_by b (insert_by a xs)
  insert_by_comm a b [] same =
      insert_by_comm_first a b [] same (insert_by_singleton a) (insert_by_singleton b)
  insert_by_comm a b (x ∷ xs) same = elim (Bool-cases (bytes_le (key a) (key x))) [
    | inl h ↦ elim (Bool-cases (bytes_le (key b) (key x))) [
      | inl k ↦
          insert_by_comm_first a b (x ∷ xs) same (insert_by_first a x xs h)
            (insert_by_first b x xs k)
      | inr k ↦ insert_by_comm_apart a b x xs h k
    ]
    | inr h ↦ elim (Bool-cases (bytes_le (key b) (key x))) [
      | inl k ↦ sym (insert_by_comm_apart b a x xs k h)
      | inr k ↦
          rw
            (
              insert_by_later b x xs k,
              insert_by_later a x xs h,
              insert_by_later a x (insert_by b xs) h,
              insert_by_later b x (insert_by a xs) k,
              insert_by_comm a b xs same,
            )
            refl
    ]
  ]

-- sort.Strings
unfoldable pub sort_strings : List Bytes → List Bytes
unfolding sort_by
sort_strings xs = sort_by (λ s. s) xs
