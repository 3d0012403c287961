-- ===== src/PvcCopy/Plan/Equal.antt =====
-- internal/pvccopy/plan.go: the comparisons of receipts and markers decide equality.
use runner.Prelude.{ℕ, true, ◌≡◌, refl, ◌==◌, &&_split, ==_iff, ==_refl}
use runner.Prelude.Bytes.{bytes_eq→eq, bytes_eq_refl}
use runner.PvcCopy.Plan.{Receipt, Marker, receipt_eq, marker_eq}

Receipt-ext :
    (r s : Receipt)
    → r.root.uid ≡ s.root.uid
    → r.root.gid ≡ s.root.gid
    → r.root.mode ≡ s.root.mode
    → r.bytes ≡ s.bytes
    → r.entries ≡ s.entries
    → r.sha256 ≡ s.sha256
    → r ≡ s
Receipt-ext r s u g m b e h i = record {
  root = record { uid = u i; gid = g i; mode = m i };
  bytes = b i;
  entries = e i;
  sha256 = h i;
}

Marker-ext :
    (m n : Marker)
    → m.version ≡ n.version
    → m.plan_digest ≡ n.plan_digest
    → m.source_uid ≡ n.source_uid
    → m.target_uid ≡ n.target_uid
    → m.receipt ≡ n.receipt
    → m.immutable_plan_digest ≡ n.immutable_plan_digest
    → m ≡ n
Marker-ext m n v d s t r p i = record {
  version = v i;
  plan_digest = d i;
  source_uid = s i;
  target_uid = t i;
  receipt = r i;
  immutable_plan_digest = p i;
}

same_number : (a b : ℕ) → (a == b) ≡ true → a ≡ b
same_number a b h = (==_iff a b).0 h

pub receipt_eq→eq : (r s : Receipt) → receipt_eq r s ≡ true → r ≡ s
unfolding receipt_eq
receipt_eq→eq r s h =
    let (abcde, f) = &&_split _ _ h in
    let (abcd, e) = &&_split _ _ abcde in
    let (abc, d) = &&_split _ _ abcd in
    let (ab, c) = &&_split _ _ abc in
    let (a, b) = &&_split _ _ ab in
    Receipt-ext r s (same_number _ _ a) (same_number _ _ b) (same_number _ _ c) (same_number _ _ d)
      (same_number _ _ e) (bytes_eq→eq _ _ f)

pub marker_eq→eq : (m n : Marker) → marker_eq m n ≡ true → m ≡ n
unfolding marker_eq
marker_eq→eq m n h =
    let (abcde, f) = &&_split _ _ h in
    let (abcd, e) = &&_split _ _ abcde in
    let (abc, d) = &&_split _ _ abcd in
    let (ab, c) = &&_split _ _ abc in
    let (a, b) = &&_split _ _ ab in
    Marker-ext m n (same_number _ _ a) (bytes_eq→eq _ _ b) (bytes_eq→eq _ _ c) (bytes_eq→eq _ _ d)
      (receipt_eq→eq _ _ e) (bytes_eq→eq _ _ f)

pub receipt_eq_refl : (r : Receipt) → receipt_eq r r ≡ true
unfolding receipt_eq
receipt_eq_refl r =
    rw
      (
        ==_refl r.root.uid,
        ==_refl r.root.gid,
        ==_refl r.root.mode,
        ==_refl r.bytes,
        ==_refl r.entries,
        bytes_eq_refl r.sha256,
      )
      refl

pub marker_eq_refl : (m : Marker) → marker_eq m m ≡ true
unfolding marker_eq
marker_eq_refl m =
    rw
      (
        ==_refl m.version,
        bytes_eq_refl m.plan_digest,
        bytes_eq_refl m.source_uid,
        bytes_eq_refl m.target_uid,
        receipt_eq_refl m.receipt,
        bytes_eq_refl m.immutable_plan_digest,
      )
      refl
