-- ===== src/PvcCopy/Archive/Determined.antt =====
-- internal/pvccopy/archive.go: the receipt of an archive determines its tree.
use mathlib.Core.List.{reverse, reverse_aux, reverse-reverse}
use runner.Prelude.{
  ◌≤◌, ◌^◌, true, ◌≡◌, sym, ap, ◌∙◌, List, [], ◌∷◌, length, map, sum, arith, All, leb→le, leb, some,
  &&_split,
}
use runner.Prelude.Bytes.{Bytes}
use runner.PvcCopy.Plan.{Plan, Receipt, validate, valid_fields}
use runner.PvcCopy.Archive.Names.{valid_path}
use runner.PvcCopy.Archive.Encoding.{Header, hashed}
use runner.PvcCopy.Archive.Encoding.Injective.{IsEncodable, hashed_injective}
use runner.PvcCopy.Archive.Wire.{join}
use runner.PvcCopy.Archive.Tree.{Entry, IsTree, IsPlain, IsReceipt}
use runner.PvcCopy.Archive.Loop.{archived, consume-IsReceipt}
use runner.PvcCopy.Archive.{Archive, Input, Destination, consume}

valid_path-length : (s : Bytes) → valid_path s ≡ true → length s ≤ 1024
unfolding valid_path
valid_path-length s h = leb→le (length s) 1024 (ground arith)

fields-max_bytes : (p : Plan) → valid_fields p ≡ true → leb p.max_bytes (2 ^ 40) ≡ true
unfolding valid_fields
fields-max_bytes p h = ground arith

validate-max_bytes : (p : Plan) → validate p ≡ true → p.max_bytes ≤ 2 ^ 40
unfolding validate
validate-max_bytes p h =
    leb→le p.max_bytes (2 ^ 40)
      (fields-max_bytes p (&&_split _ _ (&&_split _ _ (&&_split _ _ h).0).0).0)

plain-IsEncodable :
    (h : Header) (c : Bytes)
    → length h.name ≤ 1024
    → h.size ≤ 2 ^ 40
    → IsPlain h c
    → IsEncodable (h, c)
plain-IsEncodable h c named small plain = record {
  name_fits = omega (arith, named);
  size_fits = omega (arith, small);
  mode_fits = omega (arith, plain.mode_bound);
  uid_fits = omega (arith, plain.uid_bound);
  gid_fits = omega (arith, plain.gid_bound);
  has_size = plain.has_size;
}

tree-IsEncodable :
    (es : List Entry) → IsTree es → sum (map (λ e. e.0.size) es) ≤ 2 ^ 40 → All IsEncodable es
tree-IsEncodable _ (IsTree.root {h} {c} named is_dir plain) small =
    (plain-IsEncodable h c (omega (arith, ap length named)) (omega (arith, small)) plain, tt)
tree-IsEncodable _ (IsTree.child {h} {c} {es} t path_ok parent above plain) small = (
  plain-IsEncodable h c (valid_path-length h.name path_ok) (omega (arith, small)) plain,
  tree-IsEncodable es t (omega (arith, small)),
)

All-reverse_aux :
    {A : Type 0} (P : A → Type 0) (xs ys : List A) → All P xs → All P ys → All P (reverse_aux xs ys)
All-reverse_aux P [] ys h k = k
All-reverse_aux P (x ∷ xs) ys h k = All-reverse_aux P xs (x ∷ ys) h.1 (h.0, k)

receipt-IsEncodable :
    (sum_hex : Bytes → Bytes) (p : Plan) (r : Receipt) (es : List Entry)
    → validate p ≡ true
    → IsReceipt sum_hex p r es
    → All IsEncodable (reverse es)
receipt-IsEncodable sum_hex p r es valid h =
    All-reverse_aux IsEncodable es []
      (tree-IsEncodable es h.tree
        (omega (arith, h.bytes_sum, h.bytes_bound, validate-max_bytes p valid)))
      tt

-- Two archives that consume accepts with the same receipt, under whatever plans and into whatever
-- destinations, hold the same entries, names, metadata and contents included, where the hash has no
-- collision.
pub consume_injective :
    (tar_read : Bytes → Archive) (sum_hex : Bytes → Bytes) {W : Type 0}
    (no_collision : (s t : Bytes) → sum_hex s ≡ sum_hex t → s ≡ t) (p q : Plan)
    (input other : Input) (dest dest2 : Destination W) (w v : W) (r : Receipt)
    → (consume tar_read sum_hex p input dest w).0 ≡ some r
    → (consume tar_read sum_hex q other dest2 v).0 ≡ some r
    → archived (tar_read (join input.reads)) ≡ archived (tar_read (join other.reads))
consume_injective tar_read sum_hex no_collision p q input other dest dest2 w v r h k =
    let (a, a_short, a_whole, p_valid) = consume-IsReceipt tar_read sum_hex p input dest w r h in
    let (b, b_short, b_whole, q_valid) = consume-IsReceipt tar_read sum_hex q other dest2 v r k in
    let es = archived (tar_read (join input.reads)) in
    let fs = archived (tar_read (join other.reads)) in
    let same : hashed (reverse es) ≡ hashed (reverse fs) =
      no_collision _ _ (sym a.sha_eq ∙ b.sha_eq) in
    let listed : reverse es ≡ reverse fs =
      hashed_injective (reverse es) (reverse fs) (receipt-IsEncodable sum_hex p r es p_valid a)
        (receipt-IsEncodable sum_hex q r fs q_valid b) same in
    sym (reverse-reverse es) ∙ ap reverse listed ∙ reverse-reverse fs
