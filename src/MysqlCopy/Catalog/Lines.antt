-- ===== src/MysqlCopy/Catalog/Lines.antt =====
-- catalogAuthority asks each permission of the lines one by one.
use runner.Prelude.{
  Bool, true, false, ◌&&◌, ◌||◌, List, [], ◌∷◌, ◌++◌, Option, none, some, any, if◌then◌else◌, ◌≡◌,
  refl, ap, ◌∙◌, arith, Bool-cases, inl, inr, ||_split,
}
use runner.Prelude.Bytes.{Bytes, codes, bytes_eq, trim_space}
use runner.MysqlCopy.Catalog.{
  split_byte, grant_of, Authority, catalog_permissions, add_privilege, add_privileges, all_schemas,
  in_scope, add_grant, add_lines, permits, catalog_authority,
}

-- What one privilege of a list gives: itself, or the four permissions of ALL PRIVILEGES.
abbrev pub gives : Bytes → Bytes → Bool
gives key raw =
    if bytes_eq (trim_space raw) (codes "ALL PRIVILEGES")
    then any (λ p. bytes_eq p key) catalog_permissions
    else bytes_eq (trim_space raw) key

abbrev pub gives_routine : Bytes → Bool
gives_routine raw =
    bytes_eq (trim_space raw) (codes "ALL PRIVILEGES")
    || bytes_eq (trim_space raw) (codes "SHOW_ROUTINE")

abbrev pub grants : Bytes → Bytes → Option (Bytes × Bytes) → Bool
grants db key none = false
grants db key (some (privs, scope)) = in_scope db scope && any (gives key) (split_byte 44 privs)

abbrev pub grants_routine : Bytes → Option (Bytes × Bytes) → Bool
grants_routine db none = false
grants_routine db (some (privs, scope)) =
    bytes_eq scope all_schemas && any gives_routine (split_byte 44 privs)

any-append : (f : Bytes → Bool) (xs ys : List Bytes) → any f (xs ++ ys) ≡ (any f xs || any f ys)
any-append f [] ys = refl
any-append f (x ∷ xs) ys = ground (arith, any-append f xs ys)

add_privilege-permits :
    (global : Bool) (key raw : Bytes) (a : Authority)
    → permits key (add_privilege global raw a) ≡ (gives key raw || permits key a)
unfolding add_privilege
add_privilege-permits global key raw a =
    elim (Bool-cases (bytes_eq (trim_space raw) (codes "ALL PRIVILEGES"))) [
      | inl every ↦ rw every (any-append (λ p. bytes_eq p key) catalog_permissions a.permissions)
      | inr one ↦ rw one refl
    ]

and_true : (g r : Bool) → (g || r) ≡ (g && true || r)
and_true true r = refl
and_true false r = refl

add_privilege-routine :
    (global : Bool) (raw : Bytes) (a : Authority)
    → (add_privilege global raw a).routine ≡ (global && gives_routine raw || a.routine)
unfolding add_privilege
add_privilege-routine global raw a =
    elim (Bool-cases (bytes_eq (trim_space raw) (codes "ALL PRIVILEGES"))) [
      | inl every ↦ rw every (and_true global a.routine)
      | inr one ↦ rw one refl
    ]

or_assoc : (a b c : Bool) → (a || (b || c)) ≡ ((b || a) || c)
or_assoc a b c = ground arith

add_privileges-permits :
    (global : Bool) (key : Bytes) (privs : List Bytes) (a : Authority)
    → permits key (add_privileges global privs a) ≡ (any (gives key) privs || permits key a)
unfolding add_privileges
add_privileges-permits global key [] a = refl
add_privileges-permits global key (priv ∷ privs) a =
    add_privileges-permits global key privs (add_privilege global priv a)
    ∙ ap (λ b. any (gives key) privs || b) (add_privilege-permits global key priv a)
    ∙ or_assoc (any (gives key) privs) (gives key priv) (permits key a)

routine_step : (g b c r : Bool) → (g && b || (g && c || r)) ≡ (g && (c || b) || r)
routine_step g b c r = ground arith

add_privileges-routine :
    (global : Bool) (privs : List Bytes) (a : Authority)
    → (add_privileges global privs a).routine ≡ (global && any gives_routine privs || a.routine)
unfolding add_privileges
add_privileges-routine global [] a = ground arith
add_privileges-routine global (priv ∷ privs) a =
    add_privileges-routine global privs (add_privilege global priv a)
    ∙ ap (λ b. global && any gives_routine privs || b) (add_privilege-routine global priv a)
    ∙ routine_step global (any gives_routine privs) (gives_routine priv) a.routine

add_grant-permits :
    (db key : Bytes) (g : Option (Bytes × Bytes)) (a : Authority)
    → permits key (add_grant db g a) ≡ (grants db key g || permits key a)
unfolding add_grant
add_grant-permits db key none a = refl
add_grant-permits db key (some (privs, scope)) a = elim (Bool-cases (in_scope db scope)) [
  | inl counts ↦
      rw counts (add_privileges-permits (bytes_eq scope all_schemas) key (split_byte 44 privs) a)
  | inr other ↦ rw other refl
]

-- The scope of all schemas is in scope.
global-in_scope :
    (db scope : Bytes) → in_scope db scope ≡ false → bytes_eq scope all_schemas ≡ false
unfolding in_scope
global-in_scope db scope h = (||_split (bytes_eq scope all_schemas) _ h).0

add_grant-routine :
    (db : Bytes) (g : Option (Bytes × Bytes)) (a : Authority)
    → (add_grant db g a).routine ≡ (grants_routine db g || a.routine)
unfolding add_grant
add_grant-routine db none a = refl
add_grant-routine db (some (privs, scope)) a = elim (Bool-cases (in_scope db scope)) [
  | inl counts ↦
      rw counts (add_privileges-routine (bytes_eq scope all_schemas) (split_byte 44 privs) a)
  | inr other ↦ rw (other, global-in_scope db scope other) refl
]

add_lines-permits :
    (db key : Bytes) (lines : List Bytes) (a : Authority)
    → permits key (add_lines db lines a)
      ≡ (any (λ line. grants db key (grant_of line)) lines || permits key a)
unfolding add_lines
add_lines-permits db key [] a = refl
add_lines-permits db key (line ∷ lines) a =
    add_lines-permits db key lines (add_grant db (grant_of line) a)
    ∙ ap (λ b. any (λ x. grants db key (grant_of x)) lines || b)
        (add_grant-permits db key (grant_of line) a)
    ∙ or_assoc (any (λ x. grants db key (grant_of x)) lines) (grants db key (grant_of line))
        (permits key a)

add_lines-routine :
    (db : Bytes) (lines : List Bytes) (a : Authority)
    → (add_lines db lines a).routine
      ≡ (any (λ line. grants_routine db (grant_of line)) lines || a.routine)
unfolding add_lines
add_lines-routine db [] a = refl
add_lines-routine db (line ∷ lines) a =
    add_lines-routine db lines (add_grant db (grant_of line) a)
    ∙ ap (λ b. any (λ x. grants_routine db (grant_of x)) lines || b)
        (add_grant-routine db (grant_of line) a)
    ∙ or_assoc (any (λ x. grants_routine db (grant_of x)) lines) (grants_routine db (grant_of line))
        a.routine

-- Some line of the grants gives the permission, or the routine privilege.
abbrev pub line_grants : Bytes → Bytes → Bytes → Bool
line_grants db key text = any (λ line. grants db key (grant_of line)) (split_byte 10 text)

abbrev pub line_grants_routine : Bytes → Bytes → Bool
line_grants_routine db text = any (λ line. grants_routine db (grant_of line)) (split_byte 10 text)

or_false : (b : Bool) → (b || false) ≡ b
or_false true = refl
or_false false = refl

-- catalogAuthority accepts a text exactly if some line grants the routine privilege on all schemas
-- and, for each of SELECT, SHOW VIEW, TRIGGER and EVENT, some line grants it on all schemas or on
-- this one, by its name or by ALL PRIVILEGES; so neither the order of the lines nor what other
-- lines say matters.
pub catalog_authority-lines :
    (db text : Bytes)
    → catalog_authority db text ≡ (
        line_grants_routine db text
        && line_grants db (codes "SELECT") text
        && line_grants db (codes "SHOW VIEW") text
        && line_grants db (codes "TRIGGER") text
        && line_grants db (codes "EVENT") text)
unfolding catalog_authority
catalog_authority-lines db text =
    let none_yet : Authority = record { permissions = []; routine = false } in
    let permitted = λ (key : Bytes).
      add_lines-permits db key (split_byte 10 text) none_yet ∙ or_false (line_grants db key text) in
    rw
      (
        add_lines-routine db (split_byte 10 text) none_yet,
        or_false (line_grants_routine db text),
        permitted (codes "SELECT"),
        permitted (codes "SHOW VIEW"),
        permitted (codes "TRIGGER"),
        permitted (codes "EVENT"),
      )
      refl
