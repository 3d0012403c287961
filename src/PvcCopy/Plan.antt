-- ===== src/PvcCopy/Plan.antt =====
-- internal/pvccopy/plan.go: the plan of a volume copy, its validation, its digest, and the marker
-- that a completed copy leaves. A string is the list of its bytes, a duration is in nanoseconds,
-- and the integers are naturals: a negative bound is refused like 0.
mod Order
pub mod Equal
pub mod Tests
use runner.Prelude.Order.{sort_strings}
use runner.Prelude.{
  ℕ, ◌+◌, ◌*◌, ◌^◌, Bool, true, false, ◌&&◌, ◌||◌, not, List, [], ◌∷◌, Option, none, some, leb, ltb,
  ◌==◌, if◌then◌else◌, all, any, length,
}
use runner.Prelude.Bytes.{Bytes, codes, bytes_eq, cut_prefix}
use runner.Prelude.Regex.{
  is_digit, is_lower, is_letter, is_hex, one_of, span, matches_ends, matches_exactly,
}

-- MaxCopyBytes, MaxCopyEntries and MaxCopyTimeout
abbrev pub max_copy_bytes : ℕ
max_copy_bytes = 2 ^ 40

abbrev pub max_copy_entries : ℕ
max_copy_entries = 100000

abbrev pub max_copy_timeout : ℕ
max_copy_timeout = 6 * 3600 * 1000000000

-- ^[a-z0-9]([a-z0-9.-]*[a-z0-9])?$
unfoldable pub dns_name : Bytes → Bool
unfolding matches_ends
dns_name s =
    matches_ends (λ c. is_lower c || is_digit c)
      (λ c. is_lower c || is_digit c || one_of (codes ".-") c) s

abbrev is_image : ℕ → Bool
is_image c = is_letter c || is_digit c || one_of (codes "._:/-") c

digest_suffix : Bytes → Bool
unfolding cut_prefix matches_exactly
digest_suffix s = elim (cut_prefix (codes "@sha256:") s) [
  | none ↦ false
  | some rest ↦ matches_exactly is_hex 64 rest
]

image_run : Bytes × Bytes → Bool
unfolding digest_suffix
image_run ([], rest) = false
image_run (c ∷ run, rest) = (is_letter c || is_digit c) && digest_suffix rest

-- ^[a-zA-Z0-9][a-zA-Z0-9._:/-]*@sha256:[a-f0-9]{64}$
unfoldable pub image_ref : Bytes → Bool
unfolding image_run span
image_ref s = image_run (span is_image s)

pub record PvcRef : Type 0 where
  pub namespace : Bytes
  pub name : Bytes
  pub uid : Bytes

unfoldable pub pvc_ref_eq : PvcRef → PvcRef → Bool
pvc_ref_eq r s = bytes_eq r.namespace s.namespace && bytes_eq r.name s.name && bytes_eq r.uid s.uid

pub record TargetBinding : Type 0 where
  pub tenant : Bytes
  pub project : Bytes
  pub environment : Bytes
  pub pvc : PvcRef

unfoldable pub binding_eq : TargetBinding → TargetBinding → Bool
binding_eq a b =
    bytes_eq a.tenant b.tenant
    && bytes_eq a.project b.project
    && bytes_eq a.environment b.environment
    && pvc_ref_eq a.pvc b.pvc

pub record Plan : Type 0 where
  pub immutable_plan_digest : Bytes
  pub item_id : Bytes
  pub tenant : Bytes
  pub project : Bytes
  pub environment : Bytes
  pub source : PvcRef
  pub target : PvcRef
  pub max_bytes : ℕ
  pub max_entries : ℕ
  pub timeout : ℕ
  pub image : Bytes
  pub allowed_source_namespaces : List Bytes
  pub allowed_target : TargetBinding
  pub source_quiesced_offline : Bool

-- TargetBinding{p.Tenant, p.Project, p.Environment, p.Target}
abbrev pub binding_of : Plan → TargetBinding
binding_of p = record {
  tenant = p.tenant;
  project = p.project;
  environment = p.environment;
  pvc = p.target;
}

abbrev valid_identity : Bytes → Bool
valid_identity s = not (length s == 0) && leb (length s) 256

abbrev valid_reference : Bytes → Bool
valid_reference s = leb (length s) 253 && dns_name s

abbrev within : ℕ → ℕ → Bool
within top n = not (n == 0) && leb n top

-- The checks of Plan.Validate that do not look at the allowed namespaces.
unfoldable pub valid_fields : Plan → Bool
valid_fields p =
    all valid_identity (p.tenant ∷ p.project ∷ p.environment ∷ p.source.uid ∷ p.target.uid ∷ [])
    && all valid_reference
        (p.source.namespace ∷ p.source.name ∷ p.target.namespace ∷ p.target.name ∷ [])
    && p.source_quiesced_offline
    && not (bytes_eq p.source.uid p.target.uid)
    && not (bytes_eq p.source.namespace p.target.namespace && bytes_eq p.source.name p.target.name)
    && within max_copy_bytes p.max_bytes
    && within max_copy_entries p.max_entries
    && within max_copy_timeout p.timeout
    && image_ref p.image

unfoldable pub namespace_allowed : Bytes → List Bytes → Bool
namespace_allowed s [] = false
namespace_allowed s (ns ∷ rest) = bytes_eq ns s || namespace_allowed s rest

-- `Plan.Validate`: `true` for a nil error.
unfoldable pub validate : Plan → Bool
unfolding valid_fields namespace_allowed
validate p =
    valid_fields p
    && leb (length p.allowed_source_namespaces) 1000
    && namespace_allowed p.source.namespace p.allowed_source_namespaces
    && binding_eq p.allowed_target (binding_of p)

pub record RootReceipt : Type 0 where
  pub uid : ℕ
  pub gid : ℕ
  pub mode : ℕ

pub record Receipt : Type 0 where
  pub root : RootReceipt
  pub bytes : ℕ
  pub entries : ℕ
  pub sha256 : Bytes

unfoldable pub receipt_eq : Receipt → Receipt → Bool
receipt_eq r s =
    r.root.uid == s.root.uid
    && r.root.gid == s.root.gid
    && r.root.mode == s.root.mode
    && r.bytes == s.bytes
    && r.entries == s.entries
    && bytes_eq r.sha256 s.sha256

abbrev pub empty_receipt : Receipt
empty_receipt = record {
  root = record { uid = 0; gid = 0; mode = 0 };
  bytes = 0;
  entries = 0;
  sha256 = [];
}

pub record Marker : Type 0 where
  pub version : ℕ
  pub plan_digest : Bytes
  pub source_uid : Bytes
  pub target_uid : Bytes
  pub receipt : Receipt
  pub immutable_plan_digest : Bytes

unfoldable pub marker_eq : Marker → Marker → Bool
unfolding receipt_eq
marker_eq m n =
    m.version == n.version
    && bytes_eq m.plan_digest n.plan_digest
    && bytes_eq m.source_uid n.source_uid
    && bytes_eq m.target_uid n.target_uid
    && receipt_eq m.receipt n.receipt
    && bytes_eq m.immutable_plan_digest n.immutable_plan_digest

-- `sum_json` is the hex of the SHA-256 of the JSON of a plan, both of Go's libraries.
module _ (sum_json : Plan → Bytes) where
  -- `Plan.Digest`: none for an error.
  unfoldable pub digest : Plan → Option Bytes
  unfolding validate sort_strings
  digest p =
      if validate p
      then some (
          sum_json
            record p { allowed_source_namespaces = sort_strings p.allowed_source_namespaces })
      else none

  abbrev digest_or_empty : Option Bytes → Bytes
  digest_or_empty none = []
  digest_or_empty (some d) = d

  unfoldable pub marker_for : Plan → Receipt → Marker
  unfolding digest
  marker_for p r = record {
    version = 1;
    plan_digest = digest_or_empty (digest p);
    source_uid = p.source.uid;
    target_uid = p.target.uid;
    receipt = r;
    immutable_plan_digest = p.immutable_plan_digest;
  }
