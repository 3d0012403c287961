-- ===== src/Store/Catalog/Lookup.antt =====
-- What a product is found by after Save and Delete.
use runner.Prelude.{
  Bool, true, false, [], ◌∷◌, none, some, ◌≡◌, ◌≢◌, refl, arith, Option-cases, inl, inr,
  if◌then◌else◌,
}
use runner.Prelude.Bytes.{Bytes, bytes_eq}
use runner.Store.Table.{Table, get, put, remove, get-put_all, get-remove_all, get-missing_all}
use runner.Store.Claim.{is_empty}
use runner.Store.Catalog.{
  File, Product, Store, not_found, write_back, normalize_product_name, get_product, save_product,
  delete_product, written,
}

pub empty_nil : (s : Bytes) → is_empty s ≡ true → s ≡ []
empty_nil [] h = refl
empty_nil (b ∷ bs) h = cc h

pub full_nil : (s : Bytes) → is_empty s ≡ false → s ≢ []
full_nil [] h = λ e. ground arith
full_nil (b ∷ bs) h = λ e. cc e

pub if_again :
    {A : Type 0} (b : Bool) (x y z : A)
    → (if b then x else if b then y else z) ≡ (if b then x else z)
if_again true x y z = refl
if_again false x y z = refl

module _ {R D : Type 0} (to_lower : Bytes → Bytes) (file : File (Table (Product R)) D) where
  pub delete_missing :
      (name : Bytes) (s : Store (Table (Product R)) D)
      → get (normalize_product_name to_lower file name) s.data_ ≡ none
      → delete_product to_lower file name s ≡ (not_found, s)
  unfolding delete_product
  delete_missing name s h = rw (h, delete_product) refl

  pub delete_present :
      (name : Bytes) (s : Store (Table (Product R)) D) (p : Product R)
      → get (normalize_product_name to_lower file name) s.data_ ≡ some p
      → delete_product to_lower file name s
        ≡ write_back file (remove (normalize_product_name to_lower file name) s.data_) s
  unfolding delete_product
  delete_present name s p h = rw (h, delete_product) refl

  saved-data :
      (p : Product R) (s : Store (Table (Product R)) D)
      → is_empty (normalize_product_name to_lower file p.name) ≡ false
      → (save_product to_lower file p s).1.data_
        ≡ put
            (normalize_product_name to_lower file p.name)
            (record p { name = normalize_product_name to_lower file p.name })
            s.data_
  unfolding save_product write_back
  saved-data p s full = rw full refl

  pub saved-reply :
      (p : Product R) (s : Store (Table (Product R)) D)
      → is_empty (normalize_product_name to_lower file p.name) ≡ false
      → (save_product to_lower file p s).0
        ≡ written (file.persist (save_product to_lower file p s).1.data_ s.disk).0
  unfolding save_product write_back
  saved-reply p s full = rw full refl

  pub saved-get :
      (p : Product R) (other : Bytes) (s : Store (Table (Product R)) D)
      → is_empty (normalize_product_name to_lower file p.name) ≡ false
      → get_product to_lower file other (save_product to_lower file p s).1 ≡ (
          if bytes_eq
            (normalize_product_name to_lower file p.name)
            (normalize_product_name to_lower file other)
          then some (record p { name = normalize_product_name to_lower file p.name })
          else get_product to_lower file other s)
  unfolding get_product
  saved-get p other s full = rw (saved-data p s full) (
      get-put_all (normalize_product_name to_lower file p.name)
        (normalize_product_name to_lower file other) _ s.data_)

  pub deleted-data :
      (name other : Bytes) (s : Store (Table (Product R)) D)
      → get_product to_lower file other (delete_product to_lower file name s).1 ≡ (
          if bytes_eq
            (normalize_product_name to_lower file name)
            (normalize_product_name to_lower file other)
          then none
          else get_product to_lower file other s)
  unfolding get_product write_back
  deleted-data name other s =
      elim (Option-cases (get (normalize_product_name to_lower file name) s.data_)) [
        | inl missing ↦ rw (delete_missing name s missing) (
            get-missing_all (normalize_product_name to_lower file name)
              (normalize_product_name to_lower file other) s.data_ missing)
        | inr (p, present) ↦ rw (delete_present name s p present) (
            get-remove_all (normalize_product_name to_lower file name)
              (normalize_product_name to_lower file other) s.data_)
      ]
