-- ===== src/MysqlCopy/Executor/Types.antt =====
-- internal/mysqlcopy/executor.go: the identities that the executor compares.
use runner.Prelude.{
  String, Bool, true, false, ◌&&◌, ◌||◌, not, ◌==◌, leb, str_eq, List, [], ◌∷◌, length, any, all,
}
use runner.Prelude.Bytes.{Bytes, codes, len, bytes_eq, has_prefix}
use runner.MysqlCopy.Plan.{Plan, identifier, SourceIdentity, Table, TableProof, Proof}
use runner.MysqlCopy.Failure.{Error}

pub data Result (A : Type 0) : Type 0 where
  ok : A → Result A
  err : Error → Result A

-- The digests are [32]byte.
pub record CredentialCheck : Type 0 where
  pub source : Bytes
  pub target : Bytes
  pub target_root : Bytes
  pub backup : Bytes
  pub ca : Bytes
  pub principals : List Bytes

all_equal : List Bytes → List Bytes → Bool
unfolding bytes_eq
all_equal [] [] = true
all_equal (a ∷ as_) (b ∷ bs) = bytes_eq a b && all_equal as_ bs
all_equal _ _ = false

-- fresh == credentials
unfoldable pub same_credentials : CredentialCheck → CredentialCheck → Bool
unfolding all_equal bytes_eq
same_credentials a b =
    bytes_eq a.source b.source
    && bytes_eq a.target b.target
    && bytes_eq a.target_root b.target_root
    && bytes_eq a.backup b.backup
    && bytes_eq a.ca b.ca
    && all_equal a.principals b.principals

-- [32]byte{}: every byte is 0.
abbrev pub is_zero_digest : Bytes → Bool
is_zero_digest d = all (λ b. b == 0) d

-- The comparisons of the credential digests in ExecuteDomain.
unfoldable pub distinct_credentials : Plan → CredentialCheck → Bool
unfolding bytes_eq
distinct_credentials p c =
    not (bytes_eq c.source c.target)
    && not (is_zero_digest c.source || is_zero_digest c.target || is_zero_digest c.target_root)
    && not (bytes_eq c.target c.target_root || bytes_eq c.source c.target_root)
    && not (
        str_eq p.ddl_mode "backup_lock"
        && (bytes_eq c.backup c.target || bytes_eq c.backup c.target_root))

-- The loop of validateSource, with the names seen.
tables_valid : Plan → List String → List Table → Bool
unfolding identifier
tables_valid p seen [] = true
tables_valid p seen (t ∷ tables) =
    identifier (codes t.name)
    && not (any (λ n. str_eq n t.name) seen)
    && t.primary_key
    && (str_eq t.engine "InnoDB"
        || str_eq p.ddl_mode "quiescence" && (str_eq t.engine "MyISAM" || str_eq t.engine "MEMORY"))
    && tables_valid p (t.name ∷ seen) tables

-- validateSource: true where it returns nil.
unfoldable pub validate_source : Plan → SourceIdentity → Bool
unfolding has_prefix tables_valid
validate_source p s =
    not (str_eq s.pod_uid "")
    && not (str_eq s.server_uuid "")
    && leb (len s.server_uuid) 128
    && has_prefix (codes "8.") (codes s.version)
    && not (length s.tables == 0)
    && leb (length s.tables) p.max_tables
    && tables_valid p [] s.tables

same_flag : Bool → Bool → Bool
same_flag true b = b
same_flag false b = not b

-- slices.Equal on the tables
same_tables : List Table → List Table → Bool
unfolding same_flag
same_tables [] [] = true
same_tables (t ∷ ts) (u ∷ us) =
    str_eq t.name u.name
    && str_eq t.engine u.engine
    && same_flag t.primary_key u.primary_key
    && same_tables ts us
same_tables _ _ = false

-- sameIdentity
unfoldable pub same_identity : SourceIdentity → SourceIdentity → Bool
unfolding same_tables
same_identity a b =
    str_eq a.pod_uid b.pod_uid
    && str_eq a.server_uuid b.server_uuid
    && str_eq a.version b.version
    && same_tables a.tables b.tables

same_table_proofs : List TableProof → List TableProof → Bool
unfolding bytes_eq
same_table_proofs [] [] = true
same_table_proofs (t ∷ ts) (u ∷ us) =
    bytes_eq t.name u.name
    && t.rows == u.rows
    && bytes_eq t.schema_sha256 u.schema_sha256
    && bytes_eq t.rows_sha256 u.rows_sha256
    && same_table_proofs ts us
same_table_proofs _ _ = false

-- sameProof
unfoldable pub same_proof : Proof → Proof → Bool
unfolding same_table_proofs
same_proof a b = same_table_proofs a.tables b.tables
