-- ===== src/PvcCopy/Archive/Tests.antt =====
-- Archives at concrete inputs.
use runner.Prelude.{
  ℕ, ℤ, pos, negsuc, Bool, true, false, ◌≡◌, refl, List, [], ◌∷◌, ◌++◌, Option, some, none, length,
  ◌<◌, arith,
}
use runner.Prelude.Bytes.{Bytes, codes}
use runner.PvcCopy.Plan.{Plan, Receipt, validate}
use runner.PvcCopy.Plan.Tests.{sample_plan}
use runner.PvcCopy.Archive.Names.{valid_path, dir}
use runner.PvcCopy.Archive.Encoding.{Header, regular, directory, hashed}
use runner.PvcCopy.Archive.Wire.{join, zeros, read_all, new_reader, complete}
use runner.PvcCopy.Archive.Wire.Tail.{complete-read_all, ends_in_zeros}
use runner.PvcCopy.Archive.Tree.{IsReceipt}
use runner.PvcCopy.Archive.Loop.{archived, consume-IsReceipt}
use runner.PvcCopy.Archive.Determined.{consume_injective}
use runner.PvcCopy.Archive.{
  RawEntry, Archive, Input, Destination, Output, consume, relay, relay_to, wire_limit, clean,
}

accepted_path : valid_path (codes "etc/app.conf") ≡ true
unfolding valid_path runner.Prelude.Bytes.bytes_eq
accepted_path = refl

refused_parent : valid_path (codes "etc/../app.conf") ≡ false
unfolding valid_path runner.Prelude.Bytes.bytes_eq
refused_parent = refl

refused_state : valid_path (codes ".envplane-pvccopy/claim.json") ≡ false
unfolding valid_path runner.Prelude.Bytes.bytes_eq
refused_state = refl

-- 0xC0 0x80 is no UTF-8.
refused_bytes : valid_path (192 ∷ 128 ∷ []) ≡ false
unfolding valid_path runner.Prelude.Bytes.bytes_eq
refused_bytes = refl

parent : dir (codes "a/b/c") ≡ codes "a/b"
unfolding dir
parent = refl

abbrev entry : Bytes → ℕ → Bytes → RawEntry
entry name typeflag content = record {
  name = name;
  typeflag = typeflag;
  size = pos (length content);
  mode = pos 420;
  uid = pos 1000;
  gid = pos 1000;
  linkname = [];
  ustar = true;
  pax_records = 0;
  content = content;
}

abbrev two_files : List RawEntry
two_files =
    entry (codes ".") directory []
    ∷ entry (codes "a") directory []
    ∷ entry (codes "a/b") regular (codes "hi")
    ∷ []

abbrev pub read_two_files : Bytes → Archive
read_two_files s = record { entries = two_files; eof = true }

abbrev pub input : Input
input = record { reads = zeros 600 ∷ zeros 424 ∷ []; ended = true }

abbrev one_read : Input
one_read = record { reads = zeros 1024 ∷ []; ended = true }

-- A relay of which the output keeps the headers, newest first.
abbrev pub output : Output (List Header)
output = record {
  put_header = λ h w. (true, h ∷ w);
  put_content = λ c w. (true, w);
  close_archive = λ w. (true, w);
}

abbrev pub same_bytes : Bytes → Bytes
same_bytes s = s

abbrev pub receipt : Receipt
receipt = record {
  root = record { uid = 1000; gid = 1000; mode = 420 };
  bytes = 2;
  entries = 3;
  sha256 = hashed (
      (clean (entry (codes ".") directory []), [])
      ∷ (clean (entry (codes "a") directory []), [])
      ∷ (clean (entry (codes "a/b") regular (codes "hi")), codes "hi")
      ∷ []);
}

relayed :
    (consume read_two_files same_bytes sample_plan input (relay_to output) []).0 ≡ some receipt
unfolding consume validate runner.PvcCopy.Plan.dns_name runner.Prelude.Bytes.bytes_eq
    runner.PvcCopy.Plan.image_ref runner.PvcCopy.Plan.binding_eq runner.PvcCopy.Plan.pvc_ref_eq dir
    relay_to valid_path runner.Prelude.Order.bytes_less clean new_reader zeros hashed
    runner.PvcCopy.Archive.Encoding.hash_header
relayed = refl

complete_end : complete (read_all new_reader input.reads) ≡ true
unfolding read_all new_reader complete zeros
complete_end = refl

complete-read_all_example :
    complete (read_all new_reader input.reads) ≡ ends_in_zeros (join input.reads)
complete-read_all_example = complete-read_all input.reads

cut_short : complete (read_all new_reader (zeros 1000 ∷ [])) ≡ false
unfolding read_all new_reader complete zeros
cut_short = refl

consume-IsReceipt_example :
    IsReceipt same_bytes sample_plan receipt (archived (read_two_files (join input.reads)))
    × (length (join input.reads) < wire_limit sample_plan)
    × (ends_in_zeros (join input.reads) ≡ true)
    × (validate sample_plan ≡ true)
consume-IsReceipt_example =
    consume-IsReceipt read_two_files same_bytes sample_plan input (relay_to output) [] receipt
      relayed

relayed_at_once :
    (consume read_two_files same_bytes sample_plan one_read (relay_to output) []).0 ≡ some receipt
unfolding consume validate runner.PvcCopy.Plan.dns_name runner.Prelude.Bytes.bytes_eq
    runner.PvcCopy.Plan.image_ref runner.PvcCopy.Plan.binding_eq runner.PvcCopy.Plan.pvc_ref_eq dir
    relay_to valid_path runner.Prelude.Order.bytes_less clean new_reader zeros hashed
    runner.PvcCopy.Archive.Encoding.hash_header
relayed_at_once = refl

consume_injective_example :
    archived (read_two_files (join input.reads)) ≡ archived (read_two_files (join one_read.reads))
consume_injective_example =
    consume_injective read_two_files same_bytes (λ s t h. h) sample_plan sample_plan input one_read
      (relay_to output) (relay_to output) [] [] receipt relayed relayed_at_once

abbrev read_wrong_order : Bytes → Archive
read_wrong_order s = record {
  entries = entry (codes ".") directory [] ∷ entry (codes "a/b") regular [] ∷ [];
  eof = true;
}

missing_parent : (relay read_wrong_order same_bytes sample_plan input output []).0 ≡ none
unfolding relay validate runner.PvcCopy.Plan.dns_name runner.Prelude.Bytes.bytes_eq
    runner.PvcCopy.Plan.image_ref runner.PvcCopy.Plan.binding_eq runner.PvcCopy.Plan.pvc_ref_eq dir
    valid_path runner.Prelude.Order.bytes_less clean
missing_parent = refl
