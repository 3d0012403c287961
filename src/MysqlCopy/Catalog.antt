-- ===== src/MysqlCopy/Catalog.antt =====
-- internal/mysqlcopy/catalog.go: catalogAuthority, on the text of SHOW GRANTS.
pub mod Lines
mod Tests
use runner.Prelude.{
  ℕ, Bool, true, false, ◌&&◌, ◌||◌, ◌==◌, List, [], ◌∷◌, ◌++◌, Option, none, some, any,
  if◌then◌else◌,
}
use runner.Prelude.Bytes.{Bytes, codes, bytes_eq, cut_prefix, trim_space}

-- strings.Split at one byte
unfoldable pub split_byte : ℕ → Bytes → List Bytes
split_byte sep [] = [] ∷ []
split_byte sep (c ∷ s) = elim (split_byte sep s) [
  | [] ↦ (c ∷ []) ∷ []
  | part ∷ parts ↦ if c == sep then [] ∷ part ∷ parts else (c ∷ part) ∷ parts
]

-- strings.SplitN in two: none where the separator does not occur.
unfoldable pub split_once : Bytes → Bytes → Option (Bytes × Bytes)
unfolding cut_prefix
split_once sep [] = none
split_once sep (c ∷ s) = elim (cut_prefix sep (c ∷ s)) [
  | some rest ↦ some ([], rest)
  | none ↦ elim (split_once sep s) [ none ↦ none | some r ↦ some (c ∷ r.0, r.1) ]
]

-- The privileges and the scope of a GRANT line.
unfoldable pub grant_of : Bytes → Option (Bytes × Bytes)
unfolding cut_prefix split_once
grant_of line = elim (cut_prefix (codes "GRANT ") line) [
  | none ↦ none
  | some rest ↦ elim (split_once (codes " ON ") rest) [
    | none ↦ none
    | some parts ↦ elim (split_once (codes " TO ") parts.1) [
      | none ↦ none
      | some scope ↦ some (parts.0, scope.0)
    ]
  ]
]

-- The map of the permissions, by its true keys, and the flag.
pub record Authority : Type 0 where
  pub permissions : List Bytes
  pub routine : Bool

abbrev pub catalog_permissions : List Bytes
catalog_permissions = codes "SELECT" ∷ codes "SHOW VIEW" ∷ codes "TRIGGER" ∷ codes "EVENT" ∷ []

-- One round of the inner loop.
unfoldable pub add_privilege : Bool → Bytes → Authority → Authority
unfolding bytes_eq trim_space
add_privilege global raw a =
    let priv = trim_space raw in
    if bytes_eq priv (codes "ALL PRIVILEGES")
    then record a {
      permissions = catalog_permissions ++ a.permissions;
      routine = global || a.routine;
    }
    else record a {
      permissions = priv ∷ a.permissions;
      routine = global && bytes_eq priv (codes "SHOW_ROUTINE") || a.routine;
    }

unfoldable pub add_privileges : Bool → List Bytes → Authority → Authority
unfolding add_privilege
add_privileges global [] a = a
add_privileges global (priv ∷ privs) a = add_privileges global privs (add_privilege global priv a)

-- The scopes that count: all schemas, and this one.
abbrev pub all_schemas : Bytes
all_schemas = codes "*.*"

unfoldable pub in_scope : Bytes → Bytes → Bool
unfolding bytes_eq
in_scope db scope = bytes_eq scope all_schemas || bytes_eq scope (codes "`" ++ db ++ codes "`.*")

-- One round of the outer loop, on the grant of its line.
unfoldable pub add_grant : Bytes → Option (Bytes × Bytes) → Authority → Authority
unfolding in_scope add_privileges split_byte
add_grant db none a = a
add_grant db (some (privs, scope)) a =
    if in_scope db scope
    then add_privileges (bytes_eq scope all_schemas) (split_byte 44 privs) a
    else a

unfoldable pub add_lines : Bytes → List Bytes → Authority → Authority
unfolding add_grant grant_of
add_lines db [] a = a
add_lines db (line ∷ lines) a = add_lines db lines (add_grant db (grant_of line) a)

abbrev pub permits : Bytes → Authority → Bool
permits key a = any (λ p. bytes_eq p key) a.permissions

-- catalogAuthority
unfoldable pub catalog_authority : Bytes → Bytes → Bool
unfolding add_lines split_byte bytes_eq
catalog_authority db grants =
    let a = add_lines db (split_byte 10 grants) (record { permissions = []; routine = false }) in
    a.routine
    && permits (codes "SELECT") a
    && permits (codes "SHOW VIEW") a
    && permits (codes "TRIGGER") a
    && permits (codes "EVENT") a
