-- ===== src/PvcCopy/Archive/Tree.antt =====
-- What a receipt of pvccopy stands for: a file tree, entry by entry, newest first.
use mathlib.Core.List.{reverse}
use runner.Prelude.{◌≤◌, ◌<◌, ◌^◌, true, ◌≡◌, List, [], ◌∷◌, length, map, sum, ◌⊎◌}
use runner.Prelude.Bytes.{Bytes, codes}
use runner.Prelude.Order.{bytes_less}
use runner.PvcCopy.Plan.{Plan, RootReceipt, Receipt}
use runner.PvcCopy.Archive.Names.{valid_path, dir}
use runner.PvcCopy.Archive.Encoding.{Header, regular, directory, hashed}

abbrev pub Entry : Type 0
Entry = Header × Bytes

-- The entries are newest first. A directory of this name is among them.
pub data HasDirectory (d : Bytes) : List Entry → Type 0 where
  here :
      {h : Header} {c : Bytes} {es : List Entry}
      → h.name ≡ d
      → h.typeflag ≡ directory
      → HasDirectory d ((h, c) ∷ es)
  there : {e : Entry} {es : List Entry} → HasDirectory d es → HasDirectory d (e ∷ es)

-- The name comes behind the names of all the entries but the root.
abbrev pub IsAbove : Bytes → List Entry → Type 0
IsAbove name [] = Unit
IsAbove name (root ∷ []) = Unit
IsAbove name ((h, c) ∷ e ∷ es) = bytes_less h.name name ≡ true

pub record IsPlain (h : Header) (c : Bytes) : Type 0 where
  pub mode_bound : h.mode ≤ 511
  pub uid_bound : h.uid < 2 ^ 31
  pub gid_bound : h.gid < 2 ^ 31
  pub has_kind : (h.typeflag ≡ regular) ⊎ (h.typeflag ≡ directory) × (h.size ≡ 0)
  pub has_size : length c ≡ h.size

-- A tree is listed from its root, in the order of the names, each entry behind its directory.
pub data IsTree : List Entry → Type 0 where
  root :
      {h : Header} {c : Bytes}
      → h.name ≡ codes "."
      → h.typeflag ≡ directory
      → IsPlain h c
      → IsTree ((h, c) ∷ [])
  child :
      {h : Header} {c : Bytes} {es : List Entry}
      → IsTree es
      → valid_path h.name ≡ true
      → HasDirectory (dir h.name) es
      → IsAbove h.name es
      → IsPlain h c
      → IsTree ((h, c) ∷ es)

-- The receipt's root is that of the oldest entry.
abbrev pub HasRoot : RootReceipt → List Entry → Type 0
HasRoot r [] = Unit
HasRoot r ((h, c) ∷ []) = (r.uid ≡ h.uid) × (r.gid ≡ h.gid) × (r.mode ≡ h.mode)
HasRoot r (e ∷ f ∷ es) = HasRoot r (f ∷ es)

-- A receipt of a tree, which keeps the bounds of a plan.
pub record IsReceipt (sum_hex : Bytes → Bytes) (p : Plan) (r : Receipt) (es : List Entry)
    : Type 0 where
  pub tree : IsTree es
  pub root_eq : HasRoot r.root es
  pub entries_eq : r.entries ≡ length es
  pub entries_bound : r.entries ≤ p.max_entries
  pub bytes_sum : r.bytes ≡ sum (map (λ e. e.0.size) es)
  pub bytes_bound : r.bytes ≤ p.max_bytes
  pub sha_eq : r.sha256 ≡ sum_hex (hashed (reverse es))
