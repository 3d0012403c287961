-- ===== src/Store/Table.antt =====
-- A Go map from strings: an association list, in which the first entry of a key counts.
use runner.Prelude.{
  false, List, [], ◌∷◌, Option, none, some, ◌≡◌, refl, sym, ap, ◌∙◌, arith, Bool-cases, inl, inr,
  if◌then◌else◌,
}
use runner.Prelude.Bytes.{Bytes, bytes_eq, bytes_eq_refl, bytes_eq→eq}

abbrev pub Table : Type 0 → Type 0
Table A = List (Bytes × A)

module _ {A : Type 0} where
  unfoldable pub get : Bytes → Table A → Option A
  get key [] = none
  get key ((k, a) ∷ table) = if bytes_eq k key then some a else get key table

  unfoldable pub put : Bytes → A → Table A → Table A
  put key a [] = (key, a) ∷ []
  put key a ((k, b) ∷ table) =
      let rest = put key a table in if bytes_eq k key then (k, a) ∷ table else (k, b) ∷ rest

  unfoldable pub remove : Bytes → Table A → Table A
  remove key [] = []
  remove key ((k, b) ∷ table) =
      let rest = remove key table in if bytes_eq k key then rest else (k, b) ∷ rest

  unfoldable pub values : Table A → List A
  values [] = []
  values ((k, a) ∷ table) = a ∷ values table

  pub get-put : (key : Bytes) (a : A) (table : Table A) → get key (put key a table) ≡ some a
  unfolding get put
  get-put key a [] = rw (bytes_eq_refl key) refl
  get-put key a ((k, b) ∷ table) = ground (arith, get-put key a table)

  -- Other keys keep their values.
  pub get-put_other :
      (key other : Bytes) (a : A) (table : Table A)
      → bytes_eq key other ≡ false
      → get other (put key a table) ≡ get other table
  unfolding get put
  get-put_other key other a [] h = rw h refl
  get-put_other key other a ((k, b) ∷ table) h =
      ground (arith, get-put_other key other a table, bytes_eq→eq k key)

  pub get-remove : (key : Bytes) (table : Table A) → get key (remove key table) ≡ none
  unfolding get remove
  get-remove key [] = refl
  get-remove key ((k, b) ∷ table) = ground (arith, get-remove key table)

  pub get-remove_other :
      (key other : Bytes) (table : Table A)
      → bytes_eq key other ≡ false
      → get other (remove key table) ≡ get other table
  unfolding get remove
  get-remove_other key other [] h = refl
  get-remove_other key other ((k, b) ∷ table) h =
      ground (arith, get-remove_other key other table, bytes_eq→eq k key)

  pub get-put_all :
      (key other : Bytes) (a : A) (table : Table A)
      → get other (put key a table) ≡ (if bytes_eq key other then some a else get other table)
  get-put_all key other a table = elim (Bool-cases (bytes_eq key other)) [
    | inl same ↦
        rw same (
          ap (λ k. get k (put key a table)) (sym (bytes_eq→eq key other same))
          ∙ get-put key a table)
    | inr ne ↦ rw ne (get-put_other key other a table ne)
  ]

  pub get-remove_all :
      (key other : Bytes) (table : Table A)
      → get other (remove key table) ≡ (if bytes_eq key other then none else get other table)
  get-remove_all key other table = elim (Bool-cases (bytes_eq key other)) [
    | inl same ↦ rw same (
        ap (λ k. get k (remove key table)) (sym (bytes_eq→eq key other same))
        ∙ get-remove key table)
    | inr ne ↦ rw ne (get-remove_other key other table ne)
  ]

  pub get-missing_all :
      (key other : Bytes) (table : Table A)
      → get key table ≡ none
      → get other table ≡ (if bytes_eq key other then none else get other table)
  get-missing_all key other table h = elim (Bool-cases (bytes_eq key other)) [
    | inl same ↦ rw same (ap (λ k. get k table) (sym (bytes_eq→eq key other same)) ∙ h)
    | inr ne ↦ rw ne refl
  ]
