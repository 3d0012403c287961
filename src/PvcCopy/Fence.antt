-- ===== src/PvcCopy/Fence.antt =====
-- internal/pvccopy/fence.go: the identity of the admission fence over the sources of a plan, and the
-- bounded buffer and the evidence of its probes. The manifests are text for Kubernetes.
mod Order
mod Tests
use runner.Prelude.{
  ℕ, ◌+◌, ◌-◌, Bool, true, false, ◌&&◌, ◌||◌, not, List, [], ◌∷◌, ◌++◌, Option, none, some, leb,
  ltb, ◌==◌, if◌then◌else◌, all, any, length, map, drop, take,
}
use runner.Prelude.Order.{sort_by}
use runner.Prelude.Bytes.{Bytes, codes, bytes_eq, cut_prefix, trim_space}
use runner.Prelude.Regex.{
  is_digit, is_lower, is_letter, is_hex, one_of, matches_ends, matches_word, matches_exactly,
}
use runner.MysqlCopy.Catalog.{split_byte}
use runner.PvcCopy.Plan.{dns_name, image_ref}

-- ^[a-z0-9]([-a-z0-9]*[a-z0-9])?$
unfoldable pub fence_namespace : Bytes → Bool
unfolding matches_ends
fence_namespace s =
    matches_ends (λ c. is_lower c || is_digit c) (λ c. is_lower c || is_digit c || c == 45) s

abbrev is_alphanumeric : ℕ → Bool
is_alphanumeric c = is_letter c || is_digit c

abbrev scope_element : Bytes → Bool
scope_element [] = false
scope_element (c ∷ s) =
    is_alphanumeric c && all (λ d. is_alphanumeric d || one_of (codes "._:-") d) s

-- ^[A-Za-z0-9][A-Za-z0-9._:-]*(/[A-Za-z0-9][A-Za-z0-9._:-]*)*$
unfoldable pub fence_scope_id : Bytes → Bool
unfolding split_byte
fence_scope_id s = all scope_element (split_byte 47 s)

-- ^[A-Za-z0-9][A-Za-z0-9-]{0,127}$
unfoldable pub fence_source_uid : Bytes → Bool
unfolding matches_word
fence_source_uid s = matches_word is_alphanumeric (λ c. is_alphanumeric c || c == 45) 127 s

-- ^sha256:[0-9a-f]{64}$
unfoldable pub fence_identity_digest : Bytes → Bool
unfolding cut_prefix matches_exactly
fence_identity_digest s = elim (cut_prefix (codes "sha256:") s) [
  | none ↦ false
  | some rest ↦ matches_exactly is_hex 64 rest
]

abbrev is_label : Bytes → Bool
is_label s = leb (length s) 63 && fence_namespace s

-- fenceClaimName
unfoldable pub fence_claim_name : Bytes → Bool
unfolding split_byte
fence_claim_name name =
    leb (length name) 253 && not (length name == 0) && all is_label (split_byte 46 name)

-- The fields of a domain.PVCCopyItem and a domain.PVCCopyPlan that the fence reads.
pub record Item : Type 0 where
  pub source_tenant_id : Bytes
  pub source_namespace : Bytes
  pub source_name : Bytes
  pub source_uid : Bytes
  pub source_identity : Bytes

pub record DomainPlan : Type 0 where
  pub tenant_id : Bytes
  pub project_id : Bytes
  pub image : Bytes
  pub items : List Item

pub record FenceSource : Type 0 where
  pub namespace : Bytes
  pub name : Bytes
  pub uid : Bytes
  pub identity : Bytes

-- The struct that is hashed.
pub record Authority : Type 0 where
  pub tenant_id : Bytes
  pub project_id : Bytes
  pub runner_namespace : Bytes
  pub runner_service_account : Bytes
  pub image : Bytes
  pub sources : List FenceSource

pub ref_of : Item → Bytes
ref_of i = i.source_namespace ++ codes "/" ++ i.source_name

pub source_of : Item → FenceSource
source_of i = record {
  namespace = i.source_namespace;
  name = i.source_name;
  uid = i.source_uid;
  identity = i.source_identity;
}

pub source_key : FenceSource → Bytes
source_key s = s.namespace ++ codes "/" ++ s.name

-- The checks of an item but for that of an earlier one.
unfoldable pub valid_item : Bytes → Item → Bool
valid_item tenant i =
    bytes_eq i.source_tenant_id tenant
    && is_label i.source_namespace
    && fence_claim_name i.source_name
    && fence_source_uid i.source_uid
    && fence_identity_digest i.source_identity

abbrev pub is_seen : List Bytes → Bytes → Bool
is_seen seen ref = any (λ s. bytes_eq s ref) seen

-- The loop over the items, with the map `seen`.
unfoldable pub valid_items : Bytes → List Bytes → List Item → Bool
unfolding valid_item ref_of
valid_items tenant seen [] = true
valid_items tenant seen (i ∷ is) =
    valid_item tenant i && not (is_seen seen (ref_of i)) && valid_items tenant (ref_of i ∷ seen) is

abbrev has_items : List Item → Bool
has_items [] = false
has_items (i ∷ is) = true

unfoldable pub valid_scope : DomainPlan → Bytes → Bytes → Bool
unfolding fence_scope_id split_byte
valid_scope plan namespace account =
    leb (length plan.tenant_id) 512
    && fence_scope_id plan.tenant_id
    && leb (length plan.project_id) 512
    && fence_scope_id plan.project_id
    && image_ref plan.image
    && is_label namespace
    && leb (length account) 253
    && dns_name account
    && all is_label (split_byte 46 account)

-- `sum_json` is the hex of the SHA-256 of the JSON of an authority.
module _ (sum_json : Authority → Bytes) where
  unfoldable pub authority_of : DomainPlan → Bytes → Bytes → Authority
  unfolding source_of source_key
  authority_of plan namespace account = record {
    tenant_id = plan.tenant_id;
    project_id = plan.project_id;
    runner_namespace = namespace;
    runner_service_account = account;
    image = plan.image;
    sources = sort_by source_key (map source_of plan.items);
  }

  abbrev named : Bytes → Bytes × Bytes
  named hash = (codes "envplane-pvc-copy-fence-" ++ take 32 hash, codes "sha256:" ++ hash)

  -- fenceAuthority: the name and the digest, none for an error.
  unfoldable pub fence_authority : DomainPlan → Bytes → Bytes → Option (Bytes × Bytes)
  unfolding valid_scope valid_items authority_of
  fence_authority plan namespace account =
      if valid_scope plan namespace account
        && has_items plan.items
        && valid_items plan.tenant_id [] plan.items
      then some (named (sum_json (authority_of plan namespace account)))
      else none

-- fenceProbeOutput: what was written, and `overflow`.
pub record ProbeOutput : Type 0 where
  pub written : Bytes
  pub overflow : Bool

unfoldable pub write_probe : ProbeOutput → Bytes → ProbeOutput
write_probe b p =
    if b.overflow || ltb (16384 - length b.written) (length p)
    then record b { overflow = true }
    else record b { written = b.written ++ p }

-- strings.HasSuffix
abbrev has_suffix : Bytes → Bytes → Bool
has_suffix suffix s =
    leb (length suffix) (length s) && bytes_eq (drop (length s - length suffix) s) suffix

-- The variable `denied` of probeAdmissionFence.
unfoldable pub is_denied : Bytes → Bytes → Bool
unfolding split_byte trim_space
is_denied expected output =
    any (λ line. has_suffix expected (trim_space line)) (split_byte 10 output)
