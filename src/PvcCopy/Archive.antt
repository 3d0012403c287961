-- ===== src/PvcCopy/Archive.antt =====
-- internal/pvccopy/archive.go: consume, which checks an archive entry by entry, and Relay. What
-- archive/tar reads from the bytes of a stream, and what the destination of the entries does, are
-- parameters. A cancelled context is a stream or a content that ends early.
pub mod Names
pub mod Encoding
pub mod Wire
pub mod Tree
mod Accepting
pub mod Loop
mod Determined
pub mod Tests
use runner.Prelude.{
  ℕ, ◌+◌, ◌-◌, ◌*◌, ◌^◌, ℤ, pos, negsuc, Bool, true, false, ◌&&◌, ◌||◌, not, List, [], ◌∷◌, ◌++◌,
  Option, none, some, leb, ltb, ◌==◌, if◌then◌else◌, any, length, take,
}
use runner.Prelude.Bytes.{Bytes, codes, bytes_eq}
use runner.Prelude.Order.{bytes_less}
use runner.PvcCopy.Plan.{Plan, RootReceipt, Receipt, validate}
use runner.PvcCopy.Archive.Names.{valid_path, dir}
use runner.PvcCopy.Archive.Encoding.{Header, regular, directory, hash_header}
use runner.PvcCopy.Archive.Wire.{ArchiveReader, new_reader, read_all, complete, join}

-- What tr.Next returns, with the content that tr.Read gives behind it.
pub record RawEntry : Type 0 where
  pub name : Bytes
  pub typeflag : ℕ
  pub size : ℤ
  pub mode : ℤ
  pub uid : ℤ
  pub gid : ℤ
  pub linkname : Bytes
  pub ustar : Bool
  pub pax_records : ℕ
  pub content : Bytes

-- What archive/tar makes of the bytes of a stream: the entries of the calls of Next, and whether the
-- call after them returns io.EOF.
pub record Archive : Type 0 where
  pub entries : List RawEntry
  pub eof : Bool

-- The reads that the tar.Reader makes of the wire, and whether the read after them returns no byte
-- and io.EOF.
pub record Input : Type 0 where
  pub reads : List Bytes
  pub ended : Bool

-- The writer of the output, and `open` and the file that it returns. A Bool is true for a nil error.
pub record Destination (W : Type 0) : Type 0 where
  pub write_header : Header → W → Bool × W
  pub open_file : Header → W → Bool × W
  pub copy : Header → Bytes → W → Bool × W
  pub close : W → Bool × W

-- The variables of consume: `last`, `dirs`, `receipt`, and what `hash` was given.
pub record State : Type 0 where
  pub last : Bytes
  pub dirs : List Bytes
  pub root : RootReceipt
  pub bytes : ℕ
  pub entries : ℕ
  pub hashed_bytes : Bytes

abbrev pub start : State
start = record {
  last = [];
  dirs = [];
  root = record { uid = 0; gid = 0; mode = 0 };
  bytes = 0;
  entries = 0;
  hashed_bytes = [];
}

-- 0 <= i <= n
abbrev pub at_most : ℕ → ℤ → Bool
at_most n (pos i) = leb i n
at_most n (negsuc i) = false

abbrev pub not_negative : ℤ → Bool
not_negative (pos i) = true
not_negative (negsuc i) = false

-- The value of an integer that is not negative.
abbrev pub value : ℤ → ℕ
value (pos i) = i
value (negsuc i) = 0

-- clean
unfoldable pub clean : RawEntry → Header
clean e = record {
  name = e.name;
  typeflag = e.typeflag;
  size = value e.size;
  mode = value e.mode;
  uid = value e.uid;
  gid = value e.gid;
}

unfoldable pub is_root_entry : State → RawEntry → Bool
is_root_entry st e = st.entries == 0 && bytes_eq e.name (codes ".") && e.typeflag == directory

unfoldable pub valid_name : State → RawEntry → Bool
unfolding is_root_entry
valid_name st e =
    (is_root_entry st e || valid_path e.name && bytes_less st.last e.name)
    && (is_root_entry st e || not (st.entries == 0))

unfoldable pub valid_metadata : RawEntry → Bool
valid_metadata e =
    e.ustar
    && length e.linkname == 0
    && e.pax_records == 0
    && at_most 511 e.mode
    && at_most 2147483647 e.uid
    && at_most 2147483647 e.gid
    && (e.typeflag == regular || e.typeflag == directory)
    && not_negative e.size
    && (not (e.typeflag == directory) || at_most 0 e.size)

unfoldable pub has_parent : State → RawEntry → Bool
has_parent st e = bytes_eq (dir e.name) (codes ".") || any (λ d. bytes_eq d (dir e.name)) st.dirs

unfoldable pub in_limits : Plan → State → RawEntry → Bool
in_limits p st e = not (leb p.max_entries st.entries) && at_most (p.max_bytes - st.bytes) e.size

abbrev pub put_directory : Header → List Bytes → List Bytes
put_directory h dirs = if h.typeflag == directory then h.name ∷ dirs else dirs

-- The variables after an entry of which the content was copied.
unfoldable pub entered : State → Bool → Header → Bytes → State
entered st root_entry h content = record {
  last = if root_entry then st.last else h.name;
  dirs = put_directory h st.dirs;
  root = if root_entry then record { uid = h.uid; gid = h.gid; mode = h.mode } else st.root;
  bytes = st.bytes + h.size;
  entries = st.entries + 1;
  hashed_bytes = st.hashed_bytes ++ hash_header h content;
}

-- The checks of an entry, before anything is written.
unfoldable pub admitted : Plan → State → RawEntry → Bool
unfolding valid_name valid_metadata has_parent in_limits
admitted p st e = valid_name st e && valid_metadata e && has_parent st e && in_limits p st e

abbrev pub file_content : RawEntry → Bytes
file_content e = take (value e.size) e.content

-- The next call, behind a nil error.
unfoldable and_then : {W : Type 0} → Bool × W → (W → Bool × W) → Bool × W
and_then (true, w) f = f w
and_then (false, w) f = (false, w)

-- The next round, behind one that did not return.
unfoldable go_on :
    {W : Type 0} → Option State × W → (State → W → Option State × W) → Option State × W
go_on (some st, w) f = f st w
go_on (none, w) f = (none, w)

module _ {W : Type 0} (dest : Destination W) where
  -- The header, then the file, then the content, which has to be whole.
  unfoldable pub write_entry : RawEntry → W → Bool × W
  unfolding and_then
  write_entry e w = and_then (dest.write_header (clean e) w) λ w1.
      and_then (dest.open_file (clean e) w1) λ w2.
        and_then (dest.copy (clean e) (file_content e) w2)
          λ w3. (leb (value e.size) (length e.content), w3)

  abbrev written : State → RawEntry → Bool × W → Option State × W
  written st e (true, w) = (some (entered st (is_root_entry st e) (clean e) (file_content e)), w)
  written st e (false, w) = (none, w)

  -- One round of the loop.
  unfoldable pub take_entry : Plan → State → RawEntry → W → Option State × W
  unfolding admitted write_entry entered
  take_entry p st e w = if admitted p st e then written st e (write_entry e w) else (none, w)

  unfoldable pub take_entries : Plan → State → List RawEntry → W → Option State × W
  unfolding take_entry go_on
  take_entries p st [] w = (some st, w)
  take_entries p st (e ∷ es) w = go_on (take_entry p st e w) (λ st1 w1. take_entries p st1 es w1)

-- The N of the LimitedReader.
abbrev pub wire_limit : Plan → ℕ
wire_limit p = p.max_bytes + p.max_entries * 2048 + 2048

-- The check behind the loop.
unfoldable pub whole : Plan → Input → State → Bool
unfolding read_all complete
whole p input st =
    let wire = read_all new_reader input.reads in
    ltb wire.count (wire_limit p) && input.ended && complete wire && not (st.entries == 0)

abbrev pub receipt_of : (Bytes → Bytes) → State → Receipt
receipt_of sum_hex st = record {
  root = st.root;
  bytes = st.bytes;
  entries = st.entries;
  sha256 = sum_hex st.hashed_bytes;
}

abbrev closed : {W : Type 0} → Receipt → Bool × W → Option Receipt × W
closed r (true, w) = (some r, w)
closed r (false, w) = (none, w)

-- `tar_read` is archive/tar's Reader, and `sum_hex` the hex of the SHA-256 of bytes.
module _ (tar_read : Bytes → Archive) (sum_hex : Bytes → Bytes) where
  module _ {W : Type 0} where
    unfoldable pub finish : Plan → Input → Destination W → Option State × W → Option Receipt × W
    unfolding whole
    finish p input dest (none, w) = (none, w)
    finish p input dest (some st, w) =
        if (tar_read (join input.reads)).eof && whole p input st
        then closed (receipt_of sum_hex st) (dest.close w)
        else (none, w)

    unfoldable pub consume : Plan → Input → Destination W → W → Option Receipt × W
    unfolding take_entries finish
    consume p input dest w =
        if validate p
        then finish p input dest (take_entries dest p start (tar_read (join input.reads)).entries w)
        else (none, w)

-- tar.Writer on the output of a relay.
pub record Output (W : Type 0) : Type 0 where
  pub put_header : Header → W → Bool × W
  pub put_content : Bytes → W → Bool × W
  pub close_archive : W → Bool × W

-- Relay opens no file.
unfoldable pub relay_to : {W : Type 0} → Output W → Destination W
relay_to output = record {
  write_header = output.put_header;
  open_file = λ h w. (true, w);
  copy = λ h content. output.put_content content;
  close = output.close_archive;
}

unfoldable pub relay :
    {W : Type 0}
    → (Bytes → Archive)
    → (Bytes → Bytes)
    → Plan
    → Input
    → Output W
    → W
    → Option Receipt × W
unfolding consume relay_to
relay tar_read sum_hex p input output = consume tar_read sum_hex p input (relay_to output)
