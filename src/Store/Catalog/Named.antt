-- ===== src/Store/Catalog/Named.antt =====
-- Products stand under their normalized names.
use mathlib.Core.Path.{subst}
use runner.Prelude.{
  Bool, true, false, List, [], ◌∷◌, none, some, ◌≡◌, ◌≢◌, refl, sym, ◌∙◌, arith, Bool-cases,
  Option-cases, inl, inr, ◌⊎◌, if◌then◌else◌,
}
use runner.Prelude.Bytes.{Bytes, bytes_eq, bytes_eq→eq}
use runner.Store.Table.{Table, get, put, remove}
use runner.Store.Claim.{is_empty}
use runner.Store.Catalog.Lookup.{
  empty_nil, full_nil, if_again, delete_missing, delete_present, saved-get, saved-reply,
  deleted-data,
}
use runner.Store.Catalog.{
  File, Product, Store, not_found, write_back, opened, normalize_product_name, put_named,
  put_defaults, load_products, with_defaults, new_product_store, get_product, save_product,
  delete_product, written,
}

-- Every product has the name it stands under, and no name is empty.
abbrev pub IsNamed : {R : Type 0} → Table (Product R) → Type 0
IsNamed [] = Unit
IsNamed ((k, p) ∷ table) = ((p.name ≡ k) × (is_empty k ≡ false)) × IsNamed table

module _ {R : Type 0} where
  put-IsNamed :
      (name : Bytes) (p : Product R) (table : Table (Product R))
      → is_empty name ≡ false
      → p.name ≡ name
      → IsNamed table
      → IsNamed (put name p table)
  unfolding put
  put-IsNamed name p [] full same h = ((same, full), tt)
  put-IsNamed name p ((k, q) ∷ table) full same h = elim (Bool-cases (bytes_eq k name)) [
    | inl eq ↦ rw eq ((same ∙ sym (bytes_eq→eq k name eq), h.0.1), h.1)
    | inr ne ↦ rw ne (h.0, put-IsNamed name p table full same h.1)
  ]

  remove-IsNamed :
      (name : Bytes) (table : Table (Product R)) → IsNamed table → IsNamed (remove name table)
  unfolding remove
  remove-IsNamed name [] h = tt
  remove-IsNamed name ((k, q) ∷ table) h = elim (Bool-cases (bytes_eq k name)) [
    | inl eq ↦ rw eq (remove-IsNamed name table h.1)
    | inr ne ↦ rw ne (h.0, remove-IsNamed name table h.1)
  ]

not_both : {A : Type 0} (a : A) → some a ≡ none → ⊥
not_both a h = ground arith

-- The stores that the constructor and the calls reach.
module _ {R D : Type 0} (to_lower : Bytes → Bytes) (file : File (Table (Product R)) D) where
  pub data Reached : Store (Table (Product R)) D → Type 0 where
    opens :
        (defaults : List (Product R)) (disk : D) (s : Store (Table (Product R)) D)
        → new_product_store to_lower file defaults disk ≡ some s
        → Reached s
    saves :
        (p : Product R) (s : Store (Table (Product R)) D)
        → Reached s
        → Reached (save_product to_lower file p s).1
    deletes :
        (name : Bytes) (s : Store (Table (Product R)) D)
        → Reached s
        → Reached (delete_product to_lower file name s).1

  put_named-IsNamed :
      (name : Bytes) (p : Product R) (table : Table (Product R))
      → IsNamed table
      → IsNamed (put_named to_lower file name p table)
  unfolding put_named
  put_named-IsNamed name p table h = elim (Bool-cases (is_empty name)) [
    | inl blank ↦ rw blank h
    | inr full ↦ rw full (put-IsNamed name (record p { name = name }) table full refl h)
  ]

  put_defaults-IsNamed :
      (products : List (Product R)) (table : Table (Product R))
      → IsNamed table
      → IsNamed (put_defaults to_lower file products table)
  unfolding put_defaults
  put_defaults-IsNamed [] table h = h
  put_defaults-IsNamed (p ∷ products) table h =
      put_defaults-IsNamed products _
        (put_named-IsNamed (normalize_product_name to_lower file p.name) p table h)

  load_products-IsNamed :
      (raw table : Table (Product R))
      → IsNamed table
      → IsNamed (load_products to_lower file raw table)
  unfolding load_products
  load_products-IsNamed [] table h = h
  load_products-IsNamed ((key, p) ∷ raw) table h =
      load_products-IsNamed raw _ (put_named-IsNamed _ p table h)

  opened-data :
      (b : Bool) (a : Table (Product R)) (disk : D) (s : Store (Table (Product R)) D)
      → opened file b a disk ≡ some s
      → s.data_ ≡ a
  unfolding opened
  opened-data true a disk s h = ground arith
  opened-data false a disk s h = ground arith

  either-IsNamed :
      (b : Bool) (table : Table (Product R)) (disk : D) (s : Store (Table (Product R)) D)
      → IsNamed table
      → (if b then opened file false [] disk else opened file true table disk) ≡ some s
      → IsNamed s.data_
  either-IsNamed true table disk s h e = subst IsNamed (sym (opened-data false [] disk s e)) tt
  either-IsNamed false table disk s h e = subst IsNamed (sym (opened-data true table disk s e)) h

  with_defaults-IsNamed :
      (defaults : List (Product R)) (table : Table (Product R)) (disk : D)
      (s : Store (Table (Product R)) D)
      → IsNamed table
      → with_defaults to_lower file defaults table disk ≡ some s
      → IsNamed s.data_
  unfolding with_defaults
  with_defaults-IsNamed defaults [] disk s h e =
      either-IsNamed _ _ disk s (put_defaults-IsNamed defaults [] tt) e
  with_defaults-IsNamed defaults (entry ∷ table) disk s h e =
      subst IsNamed (sym (opened-data false (entry ∷ table) disk s e)) h

  decoded_equation :
      (defaults : List (Product R)) (disk : D) (raw : Table (Product R))
      → file.decode [] disk ≡ some raw
      → new_product_store to_lower file defaults disk
        ≡ with_defaults to_lower file defaults (load_products to_lower file raw []) disk
  unfolding new_product_store
  decoded_equation defaults disk raw h = rw (h, new_product_store) refl

  broken_equation :
      (defaults : List (Product R)) (disk : D)
      → file.decode [] disk ≡ none
      → new_product_store to_lower file defaults disk ≡ none
  unfolding new_product_store
  broken_equation defaults disk h = rw (h, new_product_store) refl

  new_product_store-IsNamed :
      (defaults : List (Product R)) (disk : D) (s : Store (Table (Product R)) D)
      → new_product_store to_lower file defaults disk ≡ some s
      → IsNamed s.data_
  new_product_store-IsNamed defaults disk s e = elim (Option-cases (file.decode [] disk)) [
    | inl broken ↦ elim (not_both s (sym e ∙ broken_equation defaults disk broken)) [ ]
    | inr (raw, decoded) ↦
        with_defaults-IsNamed defaults (load_products to_lower file raw []) disk s
          (load_products-IsNamed raw [] tt) (sym (decoded_equation defaults disk raw decoded) ∙ e)
  ]

  save_product-IsNamed :
      (p : Product R) (s : Store (Table (Product R)) D)
      → IsNamed s.data_
      → IsNamed (save_product to_lower file p s).1.data_
  unfolding save_product write_back
  save_product-IsNamed p s h =
      elim (Bool-cases (is_empty (normalize_product_name to_lower file p.name))) [
        | inl blank ↦ rw blank h
        | inr full ↦
            rw full
              (put-IsNamed (normalize_product_name to_lower file p.name) _ s.data_ full refl h)
      ]

  delete_product-IsNamed :
      (name : Bytes) (s : Store (Table (Product R)) D)
      → IsNamed s.data_
      → IsNamed (delete_product to_lower file name s).1.data_
  unfolding write_back
  delete_product-IsNamed name s h =
      elim (Option-cases (get (normalize_product_name to_lower file name) s.data_)) [
        | inl missing ↦ rw (delete_missing to_lower file name s missing) h
        | inr (p, present) ↦
            rw (delete_present to_lower file name s p present)
              (remove-IsNamed (normalize_product_name to_lower file name) s.data_ h)
      ]

  -- In every store that NewJSONProductStore has opened, from any file and any defaults, and that
  -- any calls of Save and Delete have changed, each product has the name it stands under, and no
  -- product stands under the empty name.
  pub Reached-IsNamed : (s : Store (Table (Product R)) D) → Reached s → IsNamed s.data_
  Reached-IsNamed s (opens defaults disk s0 e) = new_product_store-IsNamed defaults disk s0 e
  Reached-IsNamed s (saves p s0 h) = save_product-IsNamed p s0 (Reached-IsNamed s0 h)
  Reached-IsNamed s (deletes name s0 h) = delete_product-IsNamed name s0 (Reached-IsNamed s0 h)

  -- A product whose name is blank once normalized is refused by Save, which then changes nothing.
  -- Any other is saved: it is found, under its normalized name, by exactly the names that
  -- normalize to the same, every other name finds what it found before, and the reply is what
  -- writing the new table to the file returned. Delete by any name that normalizes to the same
  -- then makes those names find nothing, and leaves what every other name finds.
  pub save_product-get_product :
      (p : Product R) (name other : Bytes) (s : Store (Table (Product R)) D)
      → normalize_product_name to_lower file name ≡ normalize_product_name to_lower file p.name
      → ((normalize_product_name to_lower file p.name ≡ [])
          × (save_product to_lower file p s ≡ (not_found, s)))
        ⊎ ((normalize_product_name to_lower file p.name ≢ [])
            × (get_product to_lower file other (save_product to_lower file p s).1 ≡ (
                if bytes_eq
                  (normalize_product_name to_lower file p.name)
                  (normalize_product_name to_lower file other)
                then some (record p { name = normalize_product_name to_lower file p.name })
                else get_product to_lower file other s))
            × ((save_product to_lower file p s).0
                ≡ written (file.persist (save_product to_lower file p s).1.data_ s.disk).0)
            × (get_product to_lower file other
                  (delete_product to_lower file name (save_product to_lower file p s).1).1
                ≡ (if bytes_eq
                      (normalize_product_name to_lower file p.name)
                      (normalize_product_name to_lower file other)
                    then none
                    else get_product to_lower file other s)))
  unfolding get_product
  save_product-get_product p name other s same =
      elim (Bool-cases (is_empty (normalize_product_name to_lower file p.name))) [
        | inl blank ↦ inl (
          empty_nil (normalize_product_name to_lower file p.name) blank,
          unfold save_product in rw blank refl,
        )
        | inr full ↦ inr (
          full_nil (normalize_product_name to_lower file p.name) full,
          saved-get to_lower file p other s full,
          saved-reply to_lower file p s full,
          deleted-data to_lower file name other (save_product to_lower file p s).1
              ∙ rw (same, saved-get to_lower file p other s full)
                  (if_again
                    (bytes_eq (normalize_product_name to_lower file p.name)
                      (normalize_product_name to_lower file other))
                    none _ _),
        )
      ]
