-- ===== src/PvcCopy/Executor/Types.antt =====
-- internal/pvccopy/executor.go: the data of Execute, and its checks on them.
use runner.Prelude.{
  ℕ, Bool, true, false, ◌&&◌, ◌||◌, not, List, ◌++◌, ltb, ◌==◌, length, any, all, take,
}
use runner.Prelude.Bytes.{Bytes, codes, bytes_eq}
use runner.PvcCopy.Plan.{Plan, PvcRef, TargetBinding, image_ref, binding_eq, binding_of, pvc_ref_eq}

pub record Pvc : Type 0 where
  pub ref : PvcRef
  pub volume_name : Bytes
  pub filesystem : Bool
  pub bound : Bool
  pub deleting : Bool
  pub offline_declared : Bool
  pub pending : Bool

pub record Pod : Type 0 where
  pub namespace : Bytes
  pub name : Bytes
  pub uid : Bytes
  pub phase : Bytes
  pub claims : List Bytes

pub record Helper : Type 0 where
  pub namespace : Bytes
  pub name : Bytes
  pub uid : Bytes
  pub owner : Bytes
  pub pvc : PvcRef
  pub read_only : Bool
  pub image : Bytes

pub record HelperSpec : Type 0 where
  pub namespace : Bytes
  pub name : Bytes
  pub owner : Bytes
  pub pvc : PvcRef
  pub read_only : Bool
  pub image : Bytes
  pub timeout : ℕ

-- What CreateHelper returns: the helper, and whether there is an error.
pub record Created : Type 0 where
  pub helper : Helper
  pub failed : Bool

pub record Policy : Type 0 where
  pub runner_image : Bytes
  pub source_namespaces : List Bytes
  pub target : TargetBinding

-- Policy.check: `true` for a nil error.
unfoldable pub policy_check : Policy → Plan → Bool
policy_check policy p =
    image_ref policy.runner_image
    && bytes_eq p.image policy.runner_image
    && binding_eq policy.target (binding_of p)
    && any (λ ns. bytes_eq ns p.source.namespace) policy.source_namespaces

-- SourceHelperName, with the hex of a SHA-256.
unfoldable pub source_helper_name : (Bytes → Bytes) → PvcRef → Bytes
source_helper_name sum_hex ref =
    codes "pvccopy-source-"
    ++ take 24 (sum_hex (ref.namespace ++ codes "/" ++ ref.name ++ codes "/" ++ ref.uid))

abbrev bound_to_volume : Pvc → Bool
bound_to_volume v = v.bound && not (length v.volume_name == 0)

abbrev valid_pvc : PvcRef → Pvc → Bool → Bool
valid_pvc want v binding_ok = pvc_ref_eq v.ref want && v.filesystem && binding_ok && not v.deleting

-- The two claims, as the check reads them when there are n helpers.
unfoldable pub valid_pair : Plan → ℕ → Pvc → Pvc → Bool
valid_pair p n source target =
    valid_pvc p.source source (bound_to_volume source)
    && valid_pvc p.target target (ltb n 2 && target.pending || bound_to_volume target)
    && not (not (length target.volume_name == 0) && bytes_eq source.volume_name target.volume_name)
    && source.offline_declared

abbrev owned_by : Pod → Helper → Bool
owned_by pod h =
    bytes_eq h.uid pod.uid && bytes_eq h.name pod.name && bytes_eq h.namespace pod.namespace

abbrev finished : Pod → Bool
finished pod = bytes_eq pod.phase (codes "Succeeded") || bytes_eq pod.phase (codes "Failed")

abbrev claims_volume : Plan → Bytes → Bytes → Bool
claims_volume p ns claim =
    bytes_eq ns p.source.namespace && bytes_eq claim p.source.name
    || bytes_eq ns p.target.namespace && bytes_eq claim p.target.name

-- A Pod of the namespace does not stand in the way.
unfoldable pub harmless : Plan → List Helper → Bytes → Pod → Bool
harmless p helpers ns pod =
    bytes_eq pod.namespace ns
    && not (length pod.uid == 0)
    && (any (owned_by pod) helpers || finished pod || not (any (claims_volume p ns) pod.claims))

unfoldable pub no_consumers : Plan → List Helper → Bytes → List Pod → Bool
unfolding harmless
no_consumers p helpers ns pods = all (harmless p helpers ns) pods

-- An answer with an error that still identifies the helper.
unfoldable pub known_helper : HelperSpec → Helper → Bool
known_helper spec h =
    not (length h.uid == 0)
    && bytes_eq h.namespace spec.namespace
    && bytes_eq h.name spec.name
    && bytes_eq h.owner spec.owner

abbrev bool_eq : Bool → Bool → Bool
bool_eq true b = b
bool_eq false b = not b

unfoldable pub exact_helper : HelperSpec → Helper → Bool
unfolding known_helper
exact_helper spec h =
    known_helper spec h
    && pvc_ref_eq h.pvc spec.pvc
    && bool_eq h.read_only spec.read_only
    && bytes_eq h.image spec.image

-- The HelperSpec of the source, i == 0, and that of the target.
abbrev pub source_spec : (Bytes → Bytes) → Plan → Bytes → HelperSpec
source_spec sum_hex p owner = record {
  namespace = p.source.namespace;
  name = source_helper_name sum_hex p.source;
  owner = owner;
  pvc = p.source;
  read_only = true;
  image = p.image;
  timeout = p.timeout;
}

abbrev pub target_spec : Plan → Bytes → Bytes → HelperSpec
target_spec p entropy owner = record {
  namespace = p.target.namespace;
  name = codes "pvccopy-target-" ++ entropy;
  owner = owner;
  pvc = p.target;
  read_only = false;
  image = p.image;
  timeout = p.timeout;
}
