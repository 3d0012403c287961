-- ===== src/PvcCopy/Archive/Encoding.antt =====
-- internal/pvccopy/archive.go: hashHeader, the bytes that the hash of a tree is given.
pub mod Injective
pub mod Append
use runner.Prelude.{ℕ, zero, suc, ◌+◌, ◌/◌, ◌%◌, ◌^◌, List, [], ◌∷◌, ◌++◌, length}
use runner.Prelude.Bytes.{Bytes}

-- An entry of a tree, as the clean tar.Header; its numbers are not negative there. The type flag is
-- 48 for a regular file and 53 for a directory.
pub record Header : Type 0 where
  pub name : Bytes
  pub typeflag : ℕ
  pub size : ℕ
  pub mode : ℕ
  pub uid : ℕ
  pub gid : ℕ

abbrev pub regular : ℕ
regular = 48

abbrev pub directory : ℕ
directory = 53

-- binary.Write with binary.BigEndian, of an integer of k bytes, in front of what follows.
unfoldable pub big_endian : ℕ → ℕ → Bytes → Bytes
big_endian zero n rest = rest
big_endian (suc k) n rest = big_endian k (n / 256) (n % 256 ∷ rest)

-- hashHeader
unfoldable pub hash_header : Header → Bytes → Bytes
unfolding big_endian
hash_header h rest = big_endian 4 (length h.name) (
    h.name
    ++ h.typeflag
      ∷ big_endian 8 h.size (big_endian 8 h.mode (big_endian 8 h.uid (big_endian 8 h.gid rest))))

-- What the hash is given for a list of entries with their contents.
unfoldable pub hashed : List (Header × Bytes) → Bytes
unfolding hash_header
hashed [] = []
hashed ((h, content) ∷ es) = hash_header h (content ++ hashed es)
