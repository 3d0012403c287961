-- ===== src/PvcCopy/Archive/Accepting.antt =====
-- internal/pvccopy/archive.go: what is known of an archive that consume accepts.
use runner.PvcCopy.Archive.Encoding.Append.{hashed_so_far}
use runner.Prelude.{
  ℕ, suc, ◌+◌, ◌-◌, ◌≤◌, ℤ, pos, negsuc, true, false, ◌≡◌, refl, List, [], ◌∷◌, leb, ◌==◌, length,
  map, sum, arith, leb→le, ==_iff, take, zero, any, Bool-cases, not_leb→lt, &&_split, inl, inr, ◌⊎◌,
}
use runner.Prelude.Bytes.{Bytes, codes, bytes_eq, bytes_eq→eq}
use runner.Prelude.Order.{bytes_less}
use runner.PvcCopy.Plan.{Plan}
use runner.PvcCopy.Archive.Names.{valid_path, dir}
use runner.PvcCopy.Archive.Encoding.{Header, regular, directory}
use runner.PvcCopy.Archive.Tree.{Entry, HasDirectory, IsAbove, IsPlain, IsTree, HasRoot}
use runner.PvcCopy.Archive.{
  RawEntry, State, clean, file_content, is_root_entry, valid_name, valid_metadata, has_parent,
  in_limits, entered, admitted, value, at_most, put_directory,
}

at_most→le : (n : ℕ) (i : ℤ) → at_most n i ≡ true → value i ≤ n
at_most→le n (pos i) h = leb→le i n h
at_most→le n (negsuc i) h = cc h

length-take : (n : ℕ) (s : Bytes) → n ≤ length s → length (take n s) ≡ n
length-take zero s h = refl
length-take (suc n) [] h = absurd (omega (arith, h))
length-take (suc n) (c ∷ s) h = omega (arith, length-take n s (omega (arith, h)))

pub metadata-IsPlain :
    (e : RawEntry)
    → valid_metadata e ≡ true
    → leb (value e.size) (length e.content) ≡ true
    → IsPlain (clean e) (file_content e)
unfolding valid_metadata clean
metadata-IsPlain e h k = record {
  mode_bound = at_most→le 511 e.mode (ground arith);
  uid_bound = omega (arith, at_most→le 2147483647 e.uid (ground arith));
  gid_bound = omega (arith, at_most→le 2147483647 e.gid (ground arith));
  has_kind = elim (Bool-cases (e.typeflag == directory)) [
    | inl d ↦
        let small : at_most 0 e.size ≡ true = ground arith in
        inr ((==_iff e.typeflag directory).0 d, omega (arith, at_most→le 0 e.size small))
    | inr d ↦ inl ((==_iff e.typeflag regular).0 (ground arith))
  ];
  has_size = length-take (value e.size) e.content (leb→le (value e.size) (length e.content) k);
}

-- What the variables of consume say of the entries so far.
pub record Holds (p : Plan) (st : State) (es : List Entry) : Type 0 where
  pub last_below : (name : Bytes) → bytes_less st.last name ≡ true → IsAbove name es
  pub dirs_found : (d : Bytes) → any (λ e. bytes_eq e d) st.dirs ≡ true → HasDirectory d es
  pub entries_eq : st.entries ≡ length es
  pub entries_bound : st.entries ≤ p.max_entries
  pub bytes_sum : st.bytes ≡ sum (map (λ e. e.0.size) es)
  pub bytes_bound : st.bytes ≤ p.max_bytes
  pub hashed_eq : st.hashed_bytes ≡ hashed_so_far es
  pub root_eq : HasRoot st.root es
  pub tree : (es ≡ []) ⊎ IsTree es

HasDirectory-tree : (es : List Entry) → IsTree es → HasDirectory (codes ".") es
HasDirectory-tree _ (IsTree.root name_eq flag_eq plain) = HasDirectory.here name_eq flag_eq
HasDirectory-tree _ (IsTree.child t ok parent above plain) =
    HasDirectory.there (HasDirectory-tree _ t)

put_directory-HasDirectory :
    (h : Header) (c d : Bytes) (dirs : List Bytes) (es : List Entry)
    → (any (λ e. bytes_eq e d) dirs ≡ true → HasDirectory d es)
    → any (λ e. bytes_eq e d) (put_directory h dirs) ≡ true
    → HasDirectory d ((h, c) ∷ es)
put_directory-HasDirectory h c d dirs es old = elim (Bool-cases (h.typeflag == directory)) [
  | inr is_file ↦ rw is_file (λ k. HasDirectory.there (old k))
  | inl is_dir ↦ rw is_dir (elim (Bool-cases (bytes_eq h.name d)) [
    | inl same ↦
        λ k. HasDirectory.here (bytes_eq→eq h.name d same) ((==_iff h.typeflag directory).0 is_dir)
    | inr other ↦ rw other (λ k. HasDirectory.there (old k))
  ])
]

has_parent-HasDirectory :
    (p : Plan) (st : State) (e : RawEntry) (es : List Entry)
    → Holds p st es
    → IsTree es
    → has_parent st e ≡ true
    → HasDirectory (dir e.name) es
unfolding has_parent
has_parent-HasDirectory p st e es h t k = elim (Bool-cases (bytes_eq (dir e.name) (codes "."))) [
  | inl top ↦ rw (bytes_eq→eq (dir e.name) (codes ".") top) (HasDirectory-tree es t)
  | inr deep ↦ h.dirs_found (dir e.name) (ground arith)
]

in_limits-bounds :
    (p : Plan) (st : State) (e : RawEntry)
    → in_limits p st e ≡ true
    → st.bytes ≤ p.max_bytes
    → (st.entries + 1 ≤ p.max_entries) × (st.bytes + value e.size ≤ p.max_bytes)
unfolding in_limits
in_limits-bounds p st e h k =
    let room : leb p.max_entries st.entries ≡ false = ground arith in
    let small : at_most (p.max_bytes - st.bytes) e.size ≡ true = ground arith in
    (
      omega (arith, not_leb→lt p.max_entries st.entries room),
      omega (arith, at_most→le (p.max_bytes - st.bytes) e.size small, k),
    )

root_entry-facts :
    (st : State) (e : RawEntry)
    → is_root_entry st e ≡ true
    → (st.entries ≡ 0) × (e.name ≡ codes ".") × (e.typeflag ≡ directory)
unfolding is_root_entry
root_entry-facts st e h =
    let named : bytes_eq e.name (codes ".") ≡ true = ground arith in
    (ground arith, bytes_eq→eq e.name (codes ".") named, ground arith)

pub root_entry-Holds :
    (p : Plan) (st : State) (e : RawEntry) (es : List Entry)
    → Holds p st es
    → in_limits p st e ≡ true
    → IsPlain (clean e) (file_content e)
    → is_root_entry st e ≡ true
    → Holds p (entered st true (clean e) (file_content e)) ((clean e, file_content e) ∷ es)
unfolding entered clean
root_entry-Holds p st e [] h ok plain is_root =
    let (entries_bound, bytes_bound) = in_limits-bounds p st e ok h.bytes_bound in
    let (none_yet, named, is_dir) = root_entry-facts st e is_root in
    record {
      last_below = λ name k. tt;
      dirs_found =
          λ d. put_directory-HasDirectory (clean e) (file_content e) d st.dirs [] (h.dirs_found d);
      entries_eq = omega (arith, h.entries_eq);
      entries_bound = entries_bound;
      bytes_sum = omega (arith, h.bytes_sum);
      bytes_bound = bytes_bound;
      hashed_eq = rw (h.hashed_eq) refl;
      root_eq = (refl, refl, refl);
      tree = inr (IsTree.root named is_dir plain);
    }
root_entry-Holds p st e (x ∷ es) h ok plain is_root =
    absurd (omega (arith, h.entries_eq, (root_entry-facts st e is_root).0))

pub Holds-IsTree :
    (p : Plan) (st : State) (x : Entry) (es : List Entry) → Holds p st (x ∷ es) → IsTree (x ∷ es)
Holds-IsTree p st x es h = elim h.tree [ inl empty ↦ cc empty | inr t ↦ t ]

pub admitted-parts :
    (p : Plan) (st : State) (e : RawEntry)
    → admitted p st e ≡ true
    → (valid_name st e ≡ true)
      × (valid_metadata e ≡ true)
      × (has_parent st e ≡ true)
      × (in_limits p st e ≡ true)
unfolding admitted
admitted-parts p st e h =
    let (abc, d) = &&_split _ _ h in
    let (ab, c) = &&_split _ _ abc in let (a, b) = &&_split _ _ ab in (a, b, c, d)

valid_name-child :
    (st : State) (e : RawEntry)
    → valid_name st e ≡ true
    → is_root_entry st e ≡ false
    → (valid_path e.name ≡ true) × (bytes_less st.last e.name ≡ true) × ((st.entries == 0) ≡ false)
unfolding valid_name
valid_name-child st e h k = (ground arith, ground arith, ground arith)

-- An entry that is no root cannot be the first.
valid_name-first :
    (st : State) (e : RawEntry)
    → st.entries ≡ 0
    → valid_name st e ≡ true
    → is_root_entry st e ≡ true
valid_name-first st e k h = elim (Bool-cases (is_root_entry st e)) [
  | inl r ↦ r
  | inr r ↦
      let (path_ok, above, nonempty) = valid_name-child st e h r in
      absurd (ground (arith, k, nonempty))
]

pub child-Holds :
    (p : Plan) (st : State) (e : RawEntry) (es : List Entry)
    → Holds p st es
    → admitted p st e ≡ true
    → IsPlain (clean e) (file_content e)
    → is_root_entry st e ≡ false
    → Holds p (entered st false (clean e) (file_content e)) ((clean e, file_content e) ∷ es)
unfolding entered clean
child-Holds p st e [] h ok plain no_root =
    let parts = admitted-parts p st e ok in
    absurd (cc (valid_name-first st e h.entries_eq parts.0, no_root))
child-Holds p st e (x ∷ es) h ok plain no_root =
    let (name_ok, metadata_ok, parent_ok, limits) = admitted-parts p st e ok in
    let (path_ok, above, nonempty) = valid_name-child st e name_ok no_root in
    let (entries_bound, bytes_bound) = in_limits-bounds p st e limits h.bytes_bound in
    let t = Holds-IsTree p st x es h in
    record {
      last_below = λ name k. k;
      dirs_found = λ d.
          put_directory-HasDirectory (clean e) (file_content e) d st.dirs (x ∷ es) (h.dirs_found d);
      entries_eq = omega (arith, h.entries_eq);
      entries_bound = entries_bound;
      bytes_sum = omega (arith, h.bytes_sum);
      bytes_bound = bytes_bound;
      hashed_eq = rw (h.hashed_eq) refl;
      root_eq = h.root_eq;
      tree = inr (
          IsTree.child t path_ok (has_parent-HasDirectory p st e (x ∷ es) h t parent_ok)
            (h.last_below e.name above) plain);
    }
