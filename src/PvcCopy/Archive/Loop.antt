-- ===== src/PvcCopy/Archive/Loop.antt =====
-- internal/pvccopy/archive.go: the loop of consume, and the receipt that it returns.
use mathlib.Core.Path.{subst}
use runner.PvcCopy.Archive.Encoding.Append.{hashed-reverse}
use runner.PvcCopy.Archive.Wire.Tail.{ends_in_zeros, complete-read_all, count-read_all}
use runner.PvcCopy.Archive.Accepting.{
  Holds-IsTree, Holds, metadata-IsPlain, admitted-parts, root_entry-Holds, child-Holds,
}
use runner.Prelude.{
  ltb→lt, ◌<◌, Bool, true, false, ◌≡◌, refl, sym, ap, ◌∙◌, ◌&&◌, List, [], ◌∷◌, Option, none, some,
  leb, ◌==◌, length, arith, Bool-cases, &&_split, inl, inr,
}
use runner.Prelude.Bytes.{Bytes}
use runner.PvcCopy.Plan.{Plan, Receipt, validate}
use runner.PvcCopy.Archive.Tree.{Entry, IsReceipt}
use runner.PvcCopy.Archive.Wire.{join}
use runner.PvcCopy.Archive.{
  receipt_of, closed, RawEntry, Archive, Input, Destination, State, start, clean, file_content,
  is_root_entry, entered, admitted, write_entry, take_entry, take_entries, and_then, go_on, written,
  wire_limit, whole, finish, consume, value,
}

and_then-true :
    {W : Type 0} (r : Bool × W) (f : W → Bool × W) → (and_then r f).0 ≡ true → (f r.1).0 ≡ true
unfolding and_then
and_then-true (true, w) f h = h
and_then-true (false, w) f h = cc h

module _ {W : Type 0} (dest : Destination W) where
  write_entry-whole :
      (e : RawEntry) (w : W)
      → (write_entry dest e w).0 ≡ true
      → leb (value e.size) (length e.content) ≡ true
  unfolding write_entry
  write_entry-whole e w h =
      let opened : W → Bool × W = λ w2.
        and_then (dest.copy (clean e) (file_content e) w2)
          λ w3. (leb (value e.size) (length e.content), w3) in
      let headed : W → Bool × W = λ w1. and_then (dest.open_file (clean e) w1) opened in
      let (r1, w1) = dest.write_header (clean e) w in
      let first = and_then-true (dest.write_header (clean e) w) headed h in
      let second = and_then-true (dest.open_file (clean e) _) opened first in
      and_then-true (dest.copy (clean e) (file_content e) _)
        (λ w3. (leb (value e.size) (length e.content), w3)) second

  written-some :
      (st st1 : State) (e : RawEntry) (r : Bool × W)
      → (written dest st e r).0 ≡ some st1
      → (r.0 ≡ true) × (entered st (is_root_entry st e) (clean e) (file_content e) ≡ st1)
  written-some st st1 e (true, w) h = (refl, cc h)
  written-some st st1 e (false, w) h = cc h

  -- One round of the loop: the checks passed and all of the entry was copied.
  take_entry-some :
      (p : Plan) (st st1 : State) (e : RawEntry) (w : W)
      → (take_entry dest p st e w).0 ≡ some st1
      → (admitted p st e ≡ true)
        × ((write_entry dest e w).0 ≡ true)
        × (entered st (is_root_entry st e) (clean e) (file_content e) ≡ st1)
  unfolding take_entry
  take_entry-some p st st1 e w = elim (Bool-cases (admitted p st e)) [
    | inl ok ↦ rw ok (λ h.
        let (all_written, same) = written-some st st1 e (write_entry dest e w) h in
        (refl, all_written, same))
    | inr refused ↦ rw refused (λ h. cc h)
  ]

  take_entry-Holds :
      (p : Plan) (st st1 : State) (e : RawEntry) (es : List Entry) (w : W)
      → Holds p st es
      → (take_entry dest p st e w).0 ≡ some st1
      → Holds p st1 ((clean e, file_content e) ∷ es)
  take_entry-Holds p st st1 e es w h eq =
      let (ok, all_written, same) = take_entry-some p st st1 e w eq in
      let (name_ok, metadata_ok, parent_ok, limits) = admitted-parts p st e ok in
      let plain = metadata-IsPlain e metadata_ok (write_entry-whole e w all_written) in
      subst (λ s. Holds p s ((clean e, file_content e) ∷ es)) same
        (elim (Bool-cases (is_root_entry st e)) [
          | inl r ↦ rw r (root_entry-Holds p st e es h limits plain r)
          | inr r ↦ rw r (child-Holds p st e es h ok plain r)
        ])

go_on-some :
    {W : Type 0} (st1 : State) (r : Option State × W) (f : State → W → Option State × W)
    → (go_on r f).0 ≡ some st1
    → (st : State) × (r.0 ≡ some st) × ((f st r.1).0 ≡ some st1)
unfolding go_on
go_on-some st1 (some st, w) f h = (st, refl, h)
go_on-some st1 (none, w) f h = cc h

-- The entries that consume makes of those in the archive, newest first.
abbrev pub cleaned_onto : List RawEntry → List Entry → List Entry
cleaned_onto [] done = done
cleaned_onto (e ∷ es) done = cleaned_onto es ((clean e, file_content e) ∷ done)

module _ {W : Type 0} (dest : Destination W) where
  pub take_entries-Holds :
      (p : Plan) (st st1 : State) (es : List RawEntry) (done : List Entry) (w : W)
      → Holds p st done
      → (take_entries dest p st es w).0 ≡ some st1
      → Holds p st1 (cleaned_onto es done)
  unfolding take_entries
  take_entries-Holds p st st1 [] done w h eq = subst (λ s. Holds p s done) (cc eq) h
  take_entries-Holds p st st1 (e ∷ es) done w h eq =
      let (st2, got, rest) =
        go_on-some st1 (take_entry dest p st e w) (λ s w2. take_entries dest p s es w2) eq in
      take_entries-Holds p st2 st1 es _ _ (take_entry-Holds dest p st st2 e done w h got) rest

start-Holds : (p : Plan) → Holds p start []
start-Holds p = record {
  last_below = λ name k. tt;
  dirs_found = λ d k. cc k;
  entries_eq = refl;
  entries_bound = omega arith;
  bytes_sum = refl;
  bytes_bound = omega arith;
  hashed_eq = refl;
  root_eq = tt;
  tree = inl refl;
}

-- The archive that a stream holds, as the entries that consume makes of it, newest first.
abbrev pub archived : Archive → List Entry
archived a = cleaned_onto a.entries []

Holds-IsReceipt :
    (sum_hex : Bytes → Bytes) (p : Plan) (st : State) (es : List Entry)
    → Holds p st es
    → (st.entries == 0) ≡ false
    → IsReceipt sum_hex p (receipt_of sum_hex st) es
Holds-IsReceipt sum_hex p st [] h k = absurd (ground (arith, h.entries_eq))
Holds-IsReceipt sum_hex p st (x ∷ es) h k = record {
  tree = Holds-IsTree p st x es h;
  root_eq = h.root_eq;
  entries_eq = h.entries_eq;
  entries_bound = h.entries_bound;
  bytes_sum = h.bytes_sum;
  bytes_bound = h.bytes_bound;
  sha_eq = ap sum_hex (h.hashed_eq ∙ sym (hashed-reverse (x ∷ es)));
}

whole-stream :
    (p : Plan) (input : Input) (st : State)
    → whole p input st ≡ true
    → (length (join input.reads) < wire_limit p)
      × (ends_in_zeros (join input.reads) ≡ true)
      × ((st.entries == 0) ≡ false)
unfolding whole
whole-stream p input st h =
    let (abc, nonempty) = &&_split _ _ h in
    let (ab, c) = &&_split _ _ abc in
    let (a, b) = &&_split _ _ ab in
    (
      rw (sym (count-read_all input.reads)) (ltb→lt _ _ a),
      sym (complete-read_all input.reads) ∙ c,
      ground (arith, nonempty),
    )

closed-some : {W : Type 0} (q r : Receipt) (c : Bool × W) → (closed q c).0 ≡ some r → q ≡ r
closed-some q r (true, w) h = cc h
closed-some q r (false, w) h = cc h

module _ (tar_read : Bytes → Archive) (sum_hex : Bytes → Bytes) {W : Type 0} where
  finish-some :
      (p : Plan) (input : Input) (dest : Destination W) (r : Receipt) (s : Option State × W)
      → (finish tar_read sum_hex p input dest s).0 ≡ some r
      → (st : State) × (s.0 ≡ some st)
        × (whole p input st ≡ true)
        × ((tar_read (join input.reads)).eof ≡ true)
        × (receipt_of sum_hex st ≡ r)
  unfolding finish
  finish-some p input dest r (none, w) = λ h. cc h
  finish-some p input dest r (some st, w) =
      elim (Bool-cases ((tar_read (join input.reads)).eof && whole p input st)) [
        | inl ok ↦ rw ok (λ h.
            let (eof, is_whole) = &&_split _ _ ok in
            (st, refl, is_whole, eof, closed-some (receipt_of sum_hex st) r (dest.close w) h))
        | inr refused ↦ rw refused (λ h. cc h)
      ]

  -- Where consume returns a receipt, the plan is valid, the stream was within the wire limit, whole
  -- blocks and ended in two blocks of zeros, and the archive is one of a tree: the root first, then
  -- valid paths in ascending order, each behind its directory and with the content and the metadata
  -- that an entry may have. The receipt counts the entries and bytes of that tree, which are within
  -- the bounds of the plan, and has the root's owner and mode and the hash of all the entries.
  pub consume-IsReceipt :
      (p : Plan) (input : Input) (dest : Destination W) (w : W) (r : Receipt)
      → (consume tar_read sum_hex p input dest w).0 ≡ some r
      → (IsReceipt sum_hex p r (archived (tar_read (join input.reads))))
        × (length (join input.reads) < wire_limit p)
        × (ends_in_zeros (join input.reads) ≡ true)
        × (validate p ≡ true)
  unfolding consume
  consume-IsReceipt p input dest w r = elim (Bool-cases (validate p)) [
    | inr refused ↦ rw refused (λ h. cc h)
    | inl valid ↦ rw valid (λ h.
        let a = tar_read (join input.reads) in
        let (st, looped, is_whole, eof, same) =
          finish-some p input dest r (take_entries dest p start a.entries w) h in
        let held = take_entries-Holds dest p start st a.entries [] w (start-Holds p) looped in
        let (short, zeros_end, nonempty) = whole-stream p input st is_whole in
        (
          subst (λ x. IsReceipt sum_hex p x (archived a)) same
              (Holds-IsReceipt sum_hex p st (archived a) held nonempty),
          short,
          zeros_end,
          refl,
        ))
  ]
