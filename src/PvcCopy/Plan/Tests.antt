-- ===== src/PvcCopy/Plan/Tests.antt =====
-- Plans at concrete inputs.
use mathlib.Core.List.Perm
use runner.Prelude.{◌≡◌, refl, true, false, List, [], ◌∷◌, ◌++◌, some, none, ◌*◌, length}
use runner.Prelude.Bytes.{Bytes, codes}
use runner.PvcCopy.Plan.{Plan, PvcRef, validate, digest, image_ref, dns_name}
use runner.PvcCopy.Plan.Order.{digest-order}

abbrev pinned_image : Bytes
pinned_image =
    codes
      "ghcr.io/EnvPlane/runner@sha256:0123456789abcdef0123456789abcdef0123456789abcdef0123456789abcdef"

abbrev target_pvc : PvcRef
target_pvc = record { namespace = codes "preview"; name = codes "data-1"; uid = codes "t" }

abbrev pub sample_plan : Plan
sample_plan = record {
  immutable_plan_digest = codes "d";
  item_id = codes "i";
  tenant = codes "acme";
  project = codes "shop";
  environment = codes "pr-7";
  source = record { namespace = codes "prod"; name = codes "data"; uid = codes "s" };
  target = target_pvc;
  max_bytes = 1000;
  max_entries = 10;
  timeout = 60 * 1000000000;
  image = pinned_image;
  allowed_source_namespaces = codes "prod" ∷ codes "base" ∷ [];
  allowed_target = record {
    tenant = codes "acme";
    project = codes "shop";
    environment = codes "pr-7";
    pvc = target_pvc;
  };
  source_quiesced_offline = true;
}

pub sample_plan_valid : validate sample_plan ≡ true
unfolding validate dns_name runner.Prelude.Bytes.bytes_eq image_ref runner.PvcCopy.Plan.binding_eq
    runner.PvcCopy.Plan.pvc_ref_eq
sample_plan_valid = refl

not_offline : validate (record sample_plan { source_quiesced_offline = false }) ≡ false
unfolding validate dns_name
not_offline = refl

unpinned : image_ref (codes "ghcr.io/EnvPlane/runner:latest") ≡ false
unfolding image_ref
unpinned = refl

abbrev first_namespace : Plan → Bytes
first_namespace p = elim (p.allowed_source_namespaces) [ [] ↦ [] | ns ∷ rest ↦ ns ]

sorted_digest : digest first_namespace sample_plan ≡ some (codes "base")
unfolding digest validate dns_name runner.Prelude.Bytes.bytes_eq image_ref
    runner.PvcCopy.Plan.binding_eq runner.PvcCopy.Plan.pvc_ref_eq runner.Prelude.Order.bytes_le
sorted_digest = refl

digest-order_example :
    digest first_namespace
      (record sample_plan { allowed_source_namespaces = codes "base" ∷ codes "prod" ∷ [] })
    ≡ digest first_namespace sample_plan
digest-order_example =
    digest-order first_namespace sample_plan (codes "base" ∷ codes "prod" ∷ [])
      (Perm.swap (codes "base") (codes "prod") [])
