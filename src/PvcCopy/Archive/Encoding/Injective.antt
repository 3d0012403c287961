-- ===== src/PvcCopy/Archive/Encoding/Injective.antt =====
-- internal/pvccopy/archive.go: the bytes that hashHeader and the contents give to the hash of a tree
-- determine the tree.
use runner.Prelude.{
  ℕ, zero, suc, ◌*◌, ◌/◌, ◌%◌, ◌<◌, ◌^◌, ◌≡◌, refl, sym, List, [], ◌∷◌, ◌++◌, length, arith, All,
}
use runner.Prelude.Bytes.{Bytes}
use runner.PvcCopy.Archive.Encoding.{Header, big_endian, hash_header, hashed}

-- 256 ^ k
abbrev limit : ℕ → ℕ
limit zero = 1
limit (suc k) = 256 * limit k

uncons : {a b : ℕ} {s t : Bytes} → a ∷ s ≡ b ∷ t → (a ≡ b) × (s ≡ t)
uncons h = (cc h, cc h)

unappend : (s t u v : Bytes) → length s ≡ length t → s ++ u ≡ t ++ v → (s ≡ t) × (u ≡ v)
unappend [] [] u v l h = (refl, h)
unappend [] (b ∷ t) u v l h = absurd (omega (arith, l))
unappend (a ∷ s) [] u v l h = absurd (omega (arith, l))
unappend (a ∷ s) (b ∷ t) u v l h =
    let (x, y) = uncons h in let (z, w) = unappend s t u v (omega (arith, l)) y in (cc (x, z), w)

big_endian_injective :
    (k m n : ℕ) (s t : Bytes)
    → m < limit k
    → n < limit k
    → big_endian k m s ≡ big_endian k n t
    → (m ≡ n) × (s ≡ t)
unfolding big_endian
big_endian_injective zero m n s t hm hn h = (omega (arith, hm, hn), h)
big_endian_injective (suc k) m n s t hm hn h =
    let (x, y) =
      big_endian_injective k (m / 256) (n / 256) (m % 256 ∷ s) (n % 256 ∷ t) (omega (arith, hm))
        (omega (arith, hn)) h in
    let (a, b) = uncons y in (omega (arith, x, a), b)

big_endian_nonempty : (k n c : ℕ) (s : Bytes) → big_endian k n (c ∷ s) ≡ [] → ⊥
unfolding big_endian
big_endian_nonempty zero n c s h = cc h
big_endian_nonempty (suc k) n c s h = big_endian_nonempty k (n / 256) (n % 256) (c ∷ s) h

-- The fields of an entry fit into the integers that hashHeader writes them as, and the content has
-- the size that the header says.
pub record IsEncodable (e : Header × Bytes) : Type 0 where
  pub name_fits : length e.0.name < 256 ^ 4
  pub size_fits : e.0.size < 256 ^ 8
  pub mode_fits : e.0.mode < 256 ^ 8
  pub uid_fits : e.0.uid < 256 ^ 8
  pub gid_fits : e.0.gid < 256 ^ 8
  pub has_size : length e.1 ≡ e.0.size

Header-ext :
    (g h : Header) (c d : Bytes)
    → g.name ≡ h.name
    → g.typeflag ≡ h.typeflag
    → g.size ≡ h.size
    → g.mode ≡ h.mode
    → g.uid ≡ h.uid
    → g.gid ≡ h.gid
    → c ≡ d
    → Path (Header × Bytes) (g, c) (h, d)
Header-ext g h c d n f s m u i k j =
    (record { name = n j; typeflag = f j; size = s j; mode = m j; uid = u j; gid = i j }, k j)

hash_header_injective :
    (g h : Header) (c d s t : Bytes)
    → IsEncodable (g, c)
    → IsEncodable (h, d)
    → hash_header g (c ++ s) ≡ hash_header h (d ++ t)
    → Path (Header × Bytes) (g, c) (h, d) × (s ≡ t)
unfolding hash_header
hash_header_injective g h c d s t ok_g ok_h e =
    let (l, e1) = big_endian_injective 4 _ _ _ _ ok_g.name_fits ok_h.name_fits e in
    let (name_eq, e2) = unappend _ _ _ _ l e1 in
    let (flag_eq, e3) = uncons e2 in
    let (size_eq, e4) = big_endian_injective 8 _ _ _ _ ok_g.size_fits ok_h.size_fits e3 in
    let (mode_eq, e5) = big_endian_injective 8 _ _ _ _ ok_g.mode_fits ok_h.mode_fits e4 in
    let (uid_eq, e6) = big_endian_injective 8 _ _ _ _ ok_g.uid_fits ok_h.uid_fits e5 in
    let (gid_eq, e7) = big_endian_injective 8 _ _ _ _ ok_g.gid_fits ok_h.gid_fits e6 in
    let (content_eq, rest_eq) =
      unappend c d s t (omega (arith, size_eq, ok_g.has_size, ok_h.has_size)) e7 in
    (Header-ext g h c d name_eq flag_eq size_eq mode_eq uid_eq gid_eq content_eq, rest_eq)

hash_header_nonempty : (h : Header) (s : Bytes) → hash_header h s ≡ [] → ⊥
unfolding hash_header
hash_header_nonempty h s e = big_endian_nonempty 3 (length h.name / 256) (length h.name % 256) _ e

-- Two lists of entries, each with the content that its header says, give the hash the same bytes
-- only if they are the same list.
pub hashed_injective :
    (es fs : List (Header × Bytes))
    → All IsEncodable es
    → All IsEncodable fs
    → hashed es ≡ hashed fs
    → es ≡ fs
unfolding hashed
hashed_injective [] [] ok_es ok_fs e = refl
hashed_injective [] ((h, d) ∷ fs) ok_es ok_fs e = absurd (hash_header_nonempty h _ (sym e))
hashed_injective ((g, c) ∷ es) [] ok_es ok_fs e = absurd (hash_header_nonempty g _ e)
hashed_injective ((g, c) ∷ es) ((h, d) ∷ fs) ok_es ok_fs e =
    let (x, y) = hash_header_injective g h c d (hashed es) (hashed fs) ok_es.0 ok_fs.0 e in
    let z = hashed_injective es fs ok_es.1 ok_fs.1 y in cc (x, z)
