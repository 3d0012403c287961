-- ===== src/PvcCopy/Archive/Wire.antt =====
-- internal/pvccopy/archive.go: archiveReader, which tells a complete archive from one cut short.
pub mod Tail
use runner.Prelude.{
  ℕ, zero, suc, ◌+◌, ◌-◌, ◌%◌, Bool, true, false, ◌&&◌, not, List, [], ◌∷◌, ◌++◌, leb, ltb, ◌==◌,
  if◌then◌else◌, all, length, drop,
}
use runner.Prelude.Bytes.{Bytes}

-- The last 1024 bytes read, and how many were read.
pub record ArchiveReader : Type 0 where
  pub tail : Bytes
  pub count : ℕ

unfoldable pub zeros : ℕ → Bytes
zeros zero = []
zeros (suc n) = 0 ∷ zeros n

unfoldable pub new_reader : ArchiveReader
new_reader = record { tail = zeros 1024; count = 0 }

-- What Read keeps of the n bytes that the inner Read returned.
unfoldable pub read : ArchiveReader → Bytes → ArchiveReader
read r b = record {
  tail =
      if leb 1024 (length b)
      then drop (length b - 1024) b
      else if ltb 0 (length b)
      then drop (length b) r.tail ++ b
      else r.tail;
  count = r.count + length b;
}

-- The bytes of some reads.
abbrev pub join : List Bytes → Bytes
join [] = []
join (b ∷ bs) = b ++ join bs

unfoldable pub read_all : ArchiveReader → List Bytes → ArchiveReader
unfolding read
read_all r [] = r
read_all r (b ∷ bs) = read_all (read r b) bs

abbrev pub is_zero_byte : ℕ → Bool
is_zero_byte b = b == 0

-- archiveReader.complete
unfoldable pub complete : ArchiveReader → Bool
complete r = not (ltb r.count 1024) && r.count % 512 == 0 && all is_zero_byte r.tail
