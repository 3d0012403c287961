-- ===== src/PvcCopy/Archive/Encoding/Append.antt =====
-- internal/pvccopy/archive.go: the hash is given the entries one behind the other.
use mathlib.Core.List.{append_assoc, append-nil, reverse, reverse_aux}
use runner.Prelude.{ℕ, zero, suc, ◌/◌, ◌%◌, ◌≡◌, refl, sym, ap, ◌∙◌, List, [], ◌∷◌, ◌++◌, length}
use runner.Prelude.Bytes.{Bytes}
use runner.PvcCopy.Archive.Encoding.{Header, big_endian, hash_header, hashed}

big_endian-append : (k n : ℕ) (s t : Bytes) → big_endian k n (s ++ t) ≡ big_endian k n s ++ t
unfolding big_endian
big_endian-append zero n s t = refl
big_endian-append (suc k) n s t = big_endian-append k (n / 256) (n % 256 ∷ s) t

pub hash_header-append : (h : Header) (s t : Bytes) → hash_header h (s ++ t) ≡ hash_header h s ++ t
unfolding hash_header
hash_header-append h s t =
    rw
      (
        big_endian-append 8 h.gid s t,
        big_endian-append 8 h.uid (big_endian 8 h.gid s) t,
        big_endian-append 8 h.mode (big_endian 8 h.uid (big_endian 8 h.gid s)) t,
        big_endian-append 8 h.size (big_endian 8 h.mode (big_endian 8 h.uid (big_endian 8 h.gid s)))
            t,
        sym (
            append_assoc h.name
              (h.typeflag
                ∷ big_endian 8 h.size
                    (big_endian 8 h.mode (big_endian 8 h.uid (big_endian 8 h.gid s))))
              t),
      )
      (big_endian-append 4 (length h.name) _ t)

-- What the hash was given when the entries, newest first, have been taken.
abbrev pub hashed_so_far : List (Header × Bytes) → Bytes
hashed_so_far [] = []
hashed_so_far ((h, c) ∷ es) = hashed_so_far es ++ hash_header h c

pub hashed-reverse_aux :
    (es fs : List (Header × Bytes)) → hashed (reverse_aux es fs) ≡ hashed_so_far es ++ hashed fs
unfolding hashed
hashed-reverse_aux [] fs = refl
hashed-reverse_aux ((h, c) ∷ es) fs =
    hashed-reverse_aux es ((h, c) ∷ fs)
    ∙ ap (λ s. hashed_so_far es ++ s) (hash_header-append h c (hashed fs))
    ∙ sym (append_assoc (hashed_so_far es) (hash_header h c) (hashed fs))

pub hashed-reverse : (es : List (Header × Bytes)) → hashed (reverse es) ≡ hashed_so_far es
unfolding hashed
hashed-reverse es = hashed-reverse_aux es [] ∙ append-nil (hashed_so_far es)
