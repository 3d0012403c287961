-- ===== src/PvcCopy/Fence/Tests.antt =====
-- Fences at concrete inputs.
use mathlib.Core.List.Perm
use runner.Prelude.{Bool, true, false, ◌≡◌, refl, List, [], ◌∷◌, ◌++◌, Option, some, none}
use runner.Prelude.Bytes.{Bytes, codes}
use runner.PvcCopy.Plan.Tests.{sample_plan}
use runner.PvcCopy.Fence.Order.{fence_authority-order}
use runner.PvcCopy.Fence.{
  Item, DomainPlan, Authority, fence_authority, fence_scope_id, fence_claim_name, valid_items,
  ProbeOutput, write_probe, is_denied, named,
}

abbrev hash : Bytes
hash = codes "0123456789abcdef0123456789abcdef0123456789abcdef0123456789abcdef"

abbrev item : Bytes → Item
item name = record {
  source_tenant_id = codes "acme";
  source_namespace = codes "prod";
  source_name = name;
  source_uid = codes "u1";
  source_identity = codes "sha256:" ++ hash;
}

abbrev plan : DomainPlan
plan = record {
  tenant_id = codes "acme";
  project_id = codes "acme/shop";
  image = sample_plan.image;
  items = item (codes "data") ∷ item (codes "cache") ∷ [];
}

abbrev sum_json : Authority → Bytes
sum_json a = elim (a.sources) [ [] ↦ [] | s ∷ ss ↦ s.name ]

-- The sources are hashed in the order of their names.
sorted_first :
    fence_authority sum_json plan (codes "envplane") (codes "runner")
    ≡ some (named sum_json (codes "cache"))
unfolding fence_authority runner.PvcCopy.Plan.image_ref runner.PvcCopy.Fence.fence_namespace
    runner.PvcCopy.Plan.dns_name runner.Prelude.Bytes.bytes_eq fence_claim_name
    runner.PvcCopy.Fence.fence_source_uid runner.PvcCopy.Fence.fence_identity_digest
    runner.Prelude.Order.sort_by runner.Prelude.Order.bytes_le
sorted_first = refl

abbrev repeated : List Item
repeated = item (codes "data") ∷ item (codes "data") ∷ []

repeated_refused : valid_items (codes "acme") [] repeated ≡ false
unfolding valid_items runner.Prelude.Bytes.bytes_eq runner.PvcCopy.Fence.fence_namespace
    fence_claim_name runner.PvcCopy.Fence.fence_source_uid
    runner.PvcCopy.Fence.fence_identity_digest
repeated_refused = refl

scope_refused : fence_scope_id (codes "acme//shop") ≡ false
unfolding fence_scope_id
scope_refused = refl

claim_refused : fence_claim_name (codes "data..1") ≡ false
unfolding fence_claim_name runner.PvcCopy.Fence.fence_namespace
claim_refused = refl

denied_line :
    is_denied (codes "denied request: x") (codes "error:\n policy denied request: x \n") ≡ true
unfolding is_denied runner.Prelude.Bytes.bytes_eq
denied_line = refl

kept_probe :
    write_probe (record { written = codes "a"; overflow = false }) (codes "b")
    ≡ record { written = codes "ab"; overflow = false }
unfolding write_probe
kept_probe = refl

fence_authority-order_example :
    fence_authority sum_json
      (record plan { items = item (codes "cache") ∷ item (codes "data") ∷ [] })
      (codes "envplane")
      (codes "runner")
    ≡ fence_authority sum_json plan (codes "envplane") (codes "runner")
fence_authority-order_example =
    fence_authority-order sum_json plan (codes "envplane") (codes "runner")
      (item (codes "cache") ∷ item (codes "data") ∷ [])
      (Perm.swap (item (codes "cache")) (item (codes "data")) [])
