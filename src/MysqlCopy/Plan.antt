-- ===== src/MysqlCopy/Plan.antt =====
-- internal/mysqlcopy/plan.go: the plan of a copy, its validation, and the identities and proofs
-- that a copy compares. Texts are native strings, a time is the number of nanoseconds since Go's
-- zero time, and the integers are naturals: a negative bound is refused like 0.
use mathlib.Core.Bool.{not}
use runner.Prelude.{
  ℕ, ◌+◌, ◌^◌, String, Bool, true, false, ◌&&◌, ◌||◌, List, [], ◌∷◌, ◌++◌, none, some, map, leb,
  str_eq, all, any, ◌==◌,
}
use runner.Prelude.Bytes.{Bytes, codes, len, bytes_eq, cut_prefix}
use runner.Prelude.Regex.{
  is_digit, is_lower, is_upper, is_letter, is_hex, one_of, span, matches_word, matches_ends,
  matches_exactly,
}

-- ^[A-Za-z][A-Za-z0-9_]{0,63}$
abbrev pub is_word : ℕ → Bool
is_word c = is_letter c || is_digit c || c == 95

unfoldable pub identifier : Bytes → Bool
unfolding matches_word
identifier s = matches_word is_letter is_word 63 s

-- ^[a-z0-9]([a-z0-9.-]*[a-z0-9])?$
unfoldable pub name : Bytes → Bool
unfolding matches_ends
name s =
    matches_ends (λ c. is_lower c || is_digit c)
      (λ c. is_lower c || is_digit c || one_of (codes ".-") c) s

-- [a-z0-9./:_-]
abbrev is_image : ℕ → Bool
is_image c = is_lower c || is_digit c || one_of (codes "./:_-") c

digest_suffix : Bytes → Bool
unfolding cut_prefix matches_exactly
digest_suffix s = elim (cut_prefix (codes "@sha256:") s) [
  | none ↦ false
  | some rest ↦ matches_exactly is_hex 64 rest
]

image_run : Bytes × Bytes → Bool
unfolding digest_suffix
image_run ([], rest) = false
image_run (c ∷ run, rest) = (is_lower c || is_digit c) && digest_suffix rest

-- ^[a-z0-9][a-z0-9./:_-]*@sha256:[0-9a-f]{64}$
unfoldable pub image : Bytes → Bool
unfolding image_run span
image s = image_run (span is_image s)

-- ^[A-Za-z0-9_][A-Za-z0-9_.-]{0,252}$
unfoldable pub secret_key : Bytes → Bool
unfolding matches_word
secret_key s = matches_word is_word (λ c. is_word c || one_of (codes ".-") c) 252 s

-- ^sha256:[0-9a-f]{64}$
unfoldable pub contract_digest : Bytes → Bool
unfolding cut_prefix matches_exactly
contract_digest s = elim (cut_prefix (codes "sha256:") s) [
  | none ↦ false
  | some rest ↦ matches_exactly is_hex 64 rest
]

-- ^[A-Za-z0-9][A-Za-z0-9-]{0,127}$
unfoldable pub uid_pattern : Bytes → Bool
unfolding matches_word
uid_pattern s =
    matches_word (λ c. is_letter c || is_digit c) (λ c. is_letter c || is_digit c || c == 45) 127 s

pub record Ref : Type 0 where
  pub namespace : String
  pub name : String
  pub uid : String

-- r == s on refs
abbrev pub ref_eq : Ref → Ref → Bool
ref_eq r s = str_eq r.namespace s.namespace && str_eq r.name s.name && str_eq r.uid s.uid

pub record CredentialRef : Type 0 where
  pub ref : Ref
  pub username : String
  pub username_key : String
  pub password_key : String

pub record Source : Type 0 where
  pub pvc : Ref
  pub stateful_set : Ref
  pub container : String
  pub image : String
  pub service : String
  pub service_uid : String
  pub database : String
  pub port : ℕ
  pub credentials : CredentialRef
  pub backup_admin_secret_ref : CredentialRef
  pub tls_ca_secret : Ref
  pub tls_ca_key : String
  pub tls_server_name : String

pub record Target : Type 0 where
  pub namespace : String
  pub pvc_name : String
  pub storage_class : String
  pub image : String
  pub database : String
  pub root_password_key : String
  pub requested_bytes : ℕ
  pub credentials : CredentialRef

pub record Plan : Type 0 where
  pub binding : String
  pub tenant : String
  pub project : String
  pub environment : String
  pub environment_created_at : ℕ
  pub domain_plan_digest : String
  pub secret_materialization_plan_digest : String
  pub source : Source
  pub target : Target
  pub config_image : String
  pub ddl_mode : String
  pub quiescence_ref : String
  pub max_bytes : ℕ
  pub max_statement_bytes : ℕ
  pub max_tables : ℕ
  pub max_rows : ℕ
  pub timeout : ℕ

-- validRef
unfoldable pub valid_ref : Ref → Bool
unfolding uid_pattern name
valid_ref r =
    uid_pattern (codes r.uid)
    && name (codes r.namespace)
    && leb (len r.namespace) 63
    && name (codes r.name)
    && leb (len r.name) 253

-- validCredentials
unfoldable pub valid_credentials : CredentialRef → Bool
unfolding secret_key identifier
valid_credentials r =
    secret_key (codes r.password_key)
    && (identifier (codes r.username) && str_eq r.username_key ""
        || str_eq r.username "" && secret_key (codes r.username_key))

-- strings.ToLower and strings.EqualFold, on texts whose letters fold inside ASCII.
abbrev lower : ℕ → ℕ
lower c = elim (is_upper c) [ true ↦ c + 32 | false ↦ c ]

unfoldable pub equal_fold : Bytes → Bytes → Bool
unfolding bytes_eq
equal_fold s t = bytes_eq (map lower s) (map lower t)

valid_identities : Plan → Bool
valid_identities p =
    all (λ v. not (str_eq v "") && leb (len v) 256)
      (p.binding ∷ p.tenant ∷ p.project ∷ p.environment ∷ [])

valid_refs : Plan → Bool
unfolding valid_ref
valid_refs p = all valid_ref (
    p.source.pvc ∷ p.source.stateful_set ∷ p.source.credentials.ref ∷ p.target.credentials.ref ∷ [])

valid_namespaces : Plan → Bool
valid_namespaces p =
    str_eq p.source.pvc.namespace p.source.stateful_set.namespace
    && str_eq p.source.pvc.namespace p.source.credentials.ref.namespace
    && not (str_eq p.source.pvc.namespace p.target.namespace)
    && str_eq p.target.credentials.ref.namespace p.target.namespace

valid_names : Plan → Bool
unfolding name
valid_names p =
    all (λ v. name (codes v) && leb (len v) 253)
      (p.target.namespace ∷ p.target.pvc_name ∷ p.target.storage_class ∷ p.source.container
        ∷ p.source.service ∷ [])

valid_database : Plan → Bool
unfolding uid_pattern identifier equal_fold
valid_database p =
    uid_pattern (codes p.source.service_uid)
    && leb 1 p.source.port
    && leb p.source.port 65535
    && identifier (codes p.source.database)
    && str_eq p.target.database p.source.database
    && not (
        any (λ reserved. equal_fold (codes p.source.database) (codes reserved))
          ("mysql" ∷ "sys" ∷ "information_schema" ∷ "performance_schema" ∷ []))

valid_images : Plan → Bool
unfolding image
valid_images p =
    image (codes p.source.image)
    && str_eq p.target.image p.source.image
    && image (codes p.config_image)

valid_secrets : Plan → Bool
unfolding valid_credentials secret_key valid_ref
valid_secrets p =
    valid_credentials p.source.credentials
    && valid_credentials p.target.credentials
    && secret_key (codes p.target.root_password_key)
    && not (str_eq p.target.root_password_key p.target.credentials.password_key)
    && valid_ref p.source.tls_ca_secret
    && str_eq p.source.tls_ca_secret.namespace p.source.pvc.namespace
    && secret_key (codes p.source.tls_ca_key)

-- The Service's DNS name.
dns : Plan → Bytes
dns p = codes p.source.service ++ codes "." ++ codes p.source.pvc.namespace ++ codes ".svc"

valid_endpoint : Plan → Bool
unfolding dns bytes_eq equal_fold contract_digest
valid_endpoint p =
    (bytes_eq (codes p.source.tls_server_name) (dns p)
      || bytes_eq (codes p.source.tls_server_name) (dns p ++ codes ".cluster.local"))
    && not (equal_fold (codes p.source.credentials.username) (codes "root"))
    && not (equal_fold (codes p.target.credentials.username) (codes "root"))
    && not (p.environment_created_at == 0)
    && contract_digest (codes p.domain_plan_digest)
    && contract_digest (codes p.secret_materialization_plan_digest)

valid_ddl_mode : Plan → Bool
unfolding valid_ref valid_credentials
valid_ddl_mode p =
    str_eq p.ddl_mode "backup_lock"
      && valid_ref p.source.backup_admin_secret_ref.ref
      && valid_credentials p.source.backup_admin_secret_ref
      && str_eq p.source.backup_admin_secret_ref.ref.namespace p.source.pvc.namespace
      && not (ref_eq p.source.backup_admin_secret_ref.ref p.source.credentials.ref)
    || str_eq p.ddl_mode "quiescence"
      && not (str_eq p.quiescence_ref "")
      && leb (len p.quiescence_ref) 256

-- Six hours, in nanoseconds.
abbrev pub six_hours : ℕ
six_hours = 21_600_000_000_000

valid_bounds : Plan → Bool
valid_bounds p =
    leb 1 p.max_bytes
    && leb p.max_bytes (2 ^ 40)
    && leb 1024 p.max_statement_bytes
    && leb p.max_statement_bytes 16777216
    && leb 1 p.max_tables
    && leb p.max_tables 1000
    && leb 1 p.max_rows
    && leb p.max_rows 100_000_000
    && leb 1 p.timeout
    && leb p.timeout six_hours
    && leb p.max_bytes p.target.requested_bytes
    && leb p.target.requested_bytes (2 ^ 40)

-- `Plan.Validate`, true for nil and false for ErrUnsafe.
unfoldable pub validate : Plan → Bool
unfolding valid_identities valid_refs valid_namespaces valid_names valid_database valid_images
    valid_secrets valid_endpoint valid_ddl_mode valid_bounds
validate p =
    valid_identities p
    && valid_refs p
    && valid_namespaces p
    && valid_names p
    && valid_database p
    && valid_images p
    && valid_secrets p
    && valid_endpoint p
    && valid_ddl_mode p
    && valid_bounds p

pub record Table : Type 0 where
  pub name : String
  pub engine : String
  pub primary_key : Bool

pub record SourceIdentity : Type 0 where
  pub pod_uid : String
  pub server_uuid : String
  pub version : String
  pub tables : List Table

pub record TargetIdentity : Type 0 where
  pub pvc_uid : String
  pub pod_uid : String
  pub secret_uid : String

-- The name of a table is the bytes that the stream carries.
pub record TableProof : Type 0 where
  pub name : Bytes
  pub rows : ℕ
  pub schema_sha256 : Bytes
  pub rows_sha256 : Bytes

pub record Proof : Type 0 where
  pub bytes : ℕ
  pub sha256 : Bytes
  pub tables : List TableProof

pub record Receipt : Type 0 where
  pub version : ℕ
  pub plan_digest : String
  pub binding : String
  pub source_pvc_uid : String
  pub source_stateful_set_uid : String
  pub source_server_uuid : String
  pub target : TargetIdentity
  pub proof : Proof
  pub shutdown_verified : Bool
