-- ===== src/MysqlCopy/Catalog/Tests.antt =====
-- Grants that are accepted and refused, and the witness.
use runner.Prelude.{true, false, ◌&&◌, ◌∷◌, ◌++◌, ◌≡◌, refl}
use runner.Prelude.Bytes.{Bytes, codes}
use runner.MysqlCopy.Catalog.{catalog_authority}
use runner.MysqlCopy.Catalog.Lines.{line_grants, line_grants_routine, catalog_authority-lines}

abbrev some_grants : Bytes
some_grants =
    codes "GRANT SHOW_ROUTINE ON *.* TO `a`" ++ 10 ∷ codes "GRANT ALL PRIVILEGES ON `d`.* TO `a`"

catalog_authority-lines_example : catalog_authority (codes "d") some_grants ≡ (
    line_grants_routine (codes "d") some_grants
    && line_grants (codes "d") (codes "SELECT") some_grants
    && line_grants (codes "d") (codes "SHOW VIEW") some_grants
    && line_grants (codes "d") (codes "TRIGGER") some_grants
    && line_grants (codes "d") (codes "EVENT") some_grants)
catalog_authority-lines_example = catalog_authority-lines (codes "d") some_grants

grants_accepted : catalog_authority (codes "d") some_grants ≡ true
unfolding catalog_authority
grants_accepted = refl

other_schema_refused : catalog_authority (codes "e") some_grants ≡ false
unfolding catalog_authority
other_schema_refused = refl
