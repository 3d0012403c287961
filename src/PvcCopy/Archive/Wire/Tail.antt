-- ===== src/PvcCopy/Archive/Wire/Tail.antt =====
-- internal/pvccopy/archive.go: archiveReader keeps the end of the stream, however it is cut in reads.
use mathlib.Core.List.{append_assoc, append-nil}
use runner.Prelude.{
  ℕ, zero, suc, ◌+◌, ◌-◌, ◌%◌, ◌≤◌, Bool, false, ◌≡◌, refl, sym, ap, ◌∙◌, ◌&&◌, List, [], ◌∷◌, ◌++◌,
  leb, ltb, ◌==◌, all, length, drop, length-append, arith, Bool-cases, inl, inr, leb→le, not_leb→lt,
  not_ltb→le, ◌<◌,
}
use runner.Prelude.Bytes.{Bytes}
use runner.PvcCopy.Archive.Wire.{
  ArchiveReader, zeros, new_reader, read, read_all, complete, is_zero_byte, join,
}

-- A stream that is whole blocks of 512 bytes and ends with two blocks of zeros.
unfoldable pub ends_in_zeros : Bytes → Bool
ends_in_zeros s =
    leb 1024 (length s) && length s % 512 == 0 && all is_zero_byte (drop (length s - 1024) s)

length-zeros : (n : ℕ) → length (zeros n) ≡ n
unfolding zeros
length-zeros zero = refl
length-zeros (suc n) = ap suc (length-zeros n)

drop-append_past :
    {A : Type 0} (k n : ℕ) (xs ys : List A) → n ≡ length xs + k → drop n (xs ++ ys) ≡ drop k ys
drop-append_past k n [] ys h = let e : n ≡ k = omega (arith, h) in ap (λ m. drop m ys) e
drop-append_past k zero (x ∷ xs) ys h = absurd (omega (arith, h))
drop-append_past k (suc n) (x ∷ xs) ys h = drop-append_past k n xs ys (omega (arith, h))

drop-append_within :
    {A : Type 0} (k : ℕ) (xs ys : List A) → k ≤ length xs → drop k (xs ++ ys) ≡ drop k xs ++ ys
drop-append_within zero xs ys h = refl
drop-append_within (suc k) [] ys h = absurd (omega (arith, h))
drop-append_within (suc k) (x ∷ xs) ys h = drop-append_within k xs ys (omega (arith, h))

drop-drop : {A : Type 0} (j k n : ℕ) (xs : List A) → n ≡ k + j → drop j (drop k xs) ≡ drop n xs
drop-drop j zero n xs h = let e : j ≡ n = omega (arith, h) in ap (λ m. drop m xs) e
drop-drop j (suc k) zero xs h = absurd (omega (arith, h))
drop-drop zero (suc k) (suc n) [] h = refl
drop-drop (suc j) (suc k) (suc n) [] h = refl
drop-drop j (suc k) (suc n) (x ∷ xs) h = drop-drop j k n xs (omega (arith, h))

record Has (r : ArchiveReader) (s : Bytes) : Type 0 where
  tail_eq : r.tail ≡ drop (length s) (zeros 1024 ++ s)
  count_eq : r.count ≡ length s

positive_ltb : (n : ℕ) → ltb 0 (suc n) ≡ false → n < 0
positive_ltb n h = omega (arith, not_ltb→le 0 (suc n) h)

nothing_read : (b t : Bytes) → ltb 0 (length b) ≡ false → t ≡ drop (length b) t ++ b
nothing_read [] t h = sym (append-nil t)
nothing_read (c ∷ b) t h = absurd (omega (arith, positive_ltb (length b) h))

-- Both ways that Read copies keep the end of what was there with the new bytes behind it.
read-tail :
    (s b z : Bytes) (r : ArchiveReader)
    → length z ≡ 1024
    → r.tail ≡ drop (length s) (z ++ s)
    → (read r b).tail ≡ drop (length (s ++ b)) (z ++ (s ++ b))
unfolding read
read-tail s b z r hz h =
    let old : length (z ++ s) ≡ 1024 + length s = omega (arith, length-append z s, hz) in
    let total : length (s ++ b) ≡ length s + length b = length-append s b in
    rw (sym (append_assoc z s b)) (elim (Bool-cases (leb 1024 (length b))) [
      | inl long ↦ rw long (
          sym (
            drop-append_past (length b - 1024) (length (s ++ b)) (z ++ s) b
              (omega (arith, old, total, leb→le 1024 (length b) long))))
      | inr short ↦
          let fits : length (s ++ b) ≤ length (z ++ s) =
            omega (arith, old, total, not_leb→lt 1024 (length b) short) in
          let joined : drop (length (s ++ b)) (z ++ s ++ b) ≡ drop (length b) r.tail ++ b =
            drop-append_within (length (s ++ b)) (z ++ s) b fits
            ∙ ap (λ t. t ++ b)
                (sym (drop-drop (length b) (length s) (length (s ++ b)) (z ++ s) total)
                  ∙ ap (drop (length b)) (sym h)) in
          rw (short, joined)
            (elim (Bool-cases (ltb 0 (length b))) [
              | inl some_ ↦ rw some_ refl
              | inr none_ ↦ rw none_ (nothing_read b r.tail none_)
            ])
    ])

read-Has : (s b : Bytes) (r : ArchiveReader) → Has r s → Has (read r b) (s ++ b)
unfolding read
read-Has s b r h = record {
  tail_eq = read-tail s b (zeros 1024) r (length-zeros 1024) h.tail_eq;
  count_eq = omega (arith, h.count_eq, length-append s b);
}

read_all-Has :
    (s : Bytes) (bs : List Bytes) (r : ArchiveReader) → Has r s → Has (read_all r bs) (s ++ join bs)
unfolding read_all
read_all-Has s [] r h = rw (append-nil s) h
read_all-Has s (b ∷ bs) r h =
    rw (sym (append_assoc s b (join bs))) (read_all-Has (s ++ b) bs (read r b) (read-Has s b r h))

complete-Has : (r : ArchiveReader) (s : Bytes) → Has r s → complete r ≡ ends_in_zeros s
unfolding complete ends_in_zeros
complete-Has r s h =
    rw (h.tail_eq, h.count_eq)
      (elim (Bool-cases (leb 1024 (length s))) [
        | inl long ↦
            let kept : drop (length s) (zeros 1024 ++ s) ≡ drop (length s - 1024) s =
              drop-append_past (length s - 1024) (length s) (zeros 1024) s
                (omega (arith, length-zeros 1024, leb→le 1024 (length s) long)) in
            rw (kept) ground arith
        | inr short ↦ ground arith
      ])

new_reader-Has : Has new_reader []
unfolding new_reader
new_reader-Has = record { tail_eq = sym (append-nil (zeros 1024)); count_eq = refl }

pub count-read_all : (bs : List Bytes) → (read_all new_reader bs).count ≡ length (join bs)
count-read_all bs = (read_all-Has [] bs new_reader new_reader-Has).count_eq

-- However a stream is cut into reads, archiveReader calls it complete exactly when the whole stream
-- is a number of blocks of 512 bytes of which the last two are zeros.
pub complete-read_all :
    (bs : List Bytes) → complete (read_all new_reader bs) ≡ ends_in_zeros (join bs)
complete-read_all bs = complete-Has _ _ (read_all-Has [] bs new_reader new_reader-Has)
