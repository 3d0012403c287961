-- ===== src/Store/Catalog.antt =====
-- internal/store: project_store.go, product_store.go and settings_store.go. What the file on the
-- disk decodes to, and strings.ToLower, are given.
mod Lookup
pub mod Named
use runner.Prelude.Order.{bytes_less}
use runner.Prelude.{
  ℕ, Bool, true, false, List, [], ◌∷◌, Option, none, some, if◌then◌else◌, ltb, ◌==◌, ◌||◌, ◌&&◌,
}
use runner.Prelude.Bytes.{Bytes, trim_space}
use runner.Store.Table.{Table, get, put, remove, values}
use runner.Store.Claim.{is_empty}

-- The file behind a store of `A`: what it decodes to, none if it cannot be read or decoded, and the
-- writing of it, true if that succeeds. An absent or empty file decodes to the value given.
pub record File (A D : Type 0) : Type 0 where
  pub decode : A → D → Option A
  pub persist : A → D → Bool × D

-- domain.Project and domain.ProductTemplate, with fields of any type beside the key.
pub record Project (R : Type 0) : Type 0 where
  pub id : Bytes
  pub rest : R

pub record Product (R : Type 0) : Type 0 where
  pub name : Bytes
  pub rest : R

-- domain.ControlPlaneSettings
pub record Settings (R : Type 0) : Type 0 where
  pub schema_version : Bytes
  pub rest : R

pub record Store (A D : Type 0) : Type 0 where
  pub data_ : A
  pub disk : D

pub data Outcome : Type 0 where
  done not_found not_written : Outcome

abbrev pub written : Bool → Outcome
written true = done
written false = not_written

module _ {A D : Type 0} (file : File A D) where
  -- persistLocked, behind a change of the data.
  unfoldable pub write_back : A → Store A D → Outcome × Store A D
  write_back a s =
      let (ok, disk) = file.persist a s.disk in (written ok, record { data_ = a; disk = disk })

  -- The end of a constructor: a store, or the error of writing its defaults.
  unfoldable pub opened : Bool → A → D → Option (Store A D)
  opened false a disk = some (record { data_ = a; disk = disk })
  opened true a disk =
      let (ok, next) = file.persist a disk in
      if ok then some (record { data_ = a; disk = next }) else none

abbrev is_nil : {A : Type 0} → List A → Bool
is_nil [] = true
is_nil (a ∷ as_) = false

module _ {R D : Type 0} (file : File (Table (Project R)) D) where
  unfoldable pub put_projects : List (Project R) → Table (Project R) → Table (Project R)
  put_projects [] table = table
  put_projects (p ∷ projects) table = put_projects projects (put p.id p table)

  -- NewJSONProjectStore: the defaults are written where the file holds no project.
  unfoldable pub new_project_store : List (Project R) → D → Option (Store (Table (Project R)) D)
  unfolding put_projects opened
  new_project_store defaults disk = elim (file.decode [] disk) [
    | none ↦ none
    | some [] ↦
        if is_nil defaults
        then opened file false [] disk
        else opened file true (put_projects defaults []) disk
    | some (entry ∷ table) ↦ opened file false (entry ∷ table) disk
  ]

  unfoldable pub save_project :
      Project R → Store (Table (Project R)) D → Outcome × Store (Table (Project R)) D
  unfolding write_back
  save_project p s = write_back file (put p.id p s.data_) s

unfoldable pub get_project :
    {R D : Type 0} → Bytes → Store (Table (Project R)) D → Option (Project R)
get_project id s = get id s.data_

module _ {R D : Type 0} (to_lower : Bytes → Bytes) (file : File (Table (Product R)) D) where
  -- normalizeProductName
  unfoldable pub normalize_product_name : Bytes → Bytes
  normalize_product_name name = to_lower (trim_space name)

  -- The assignment under the normalized name, which becomes the product's.
  unfoldable pub put_named : Bytes → Product R → Table (Product R) → Table (Product R)
  put_named name p table =
      if is_empty name then table else put name (record p { name = name }) table

  unfoldable pub put_defaults : List (Product R) → Table (Product R) → Table (Product R)
  unfolding put_named normalize_product_name
  put_defaults [] table = table
  put_defaults (p ∷ products) table =
      put_defaults products (put_named (normalize_product_name p.name) p table)

  -- The loop of load over the decoded entries: a product without a name takes its key's.
  unfoldable pub load_products : Table (Product R) → Table (Product R) → Table (Product R)
  unfolding put_named normalize_product_name
  load_products [] table = table
  load_products ((key, p) ∷ raw) table =
      let name = normalize_product_name p.name in
      load_products raw
        (put_named (if is_empty name then normalize_product_name key else name) p table)

  -- The rest of NewJSONProductStore, on what load has put in the map.
  unfoldable pub with_defaults :
      List (Product R) → Table (Product R) → D → Option (Store (Table (Product R)) D)
  unfolding put_defaults opened
  with_defaults defaults [] disk =
      let table = put_defaults defaults [] in
      if is_nil table then opened file false [] disk else opened file true table disk
  with_defaults defaults (entry ∷ table) disk = opened file false (entry ∷ table) disk

  -- NewJSONProductStore
  unfoldable pub new_product_store : List (Product R) → D → Option (Store (Table (Product R)) D)
  unfolding with_defaults load_products
  new_product_store defaults disk = elim (file.decode [] disk) [
    | none ↦ none
    | some raw ↦ with_defaults defaults (load_products raw []) disk
  ]

  unfoldable pub get_product : Bytes → Store (Table (Product R)) D → Option (Product R)
  unfolding normalize_product_name
  get_product name s = get (normalize_product_name name) s.data_

  unfoldable pub save_product :
      Product R → Store (Table (Product R)) D → Outcome × Store (Table (Product R)) D
  unfolding normalize_product_name write_back
  save_product p s =
      let name = normalize_product_name p.name in
      if is_empty name
      then (not_found, s)
      else write_back file (put name (record p { name = name }) s.data_) s

  unfoldable pub delete_product :
      Bytes → Store (Table (Product R)) D → Outcome × Store (Table (Product R)) D
  unfolding normalize_product_name write_back
  delete_product name s = elim (get (normalize_product_name name) s.data_) [
    | none ↦ (not_found, s)
    | some p ↦ write_back file (remove (normalize_product_name name) s.data_) s
  ]

module _ {R D : Type 0} (file : File (Settings R) D) where
  -- NewJSONSettingsStore: the defaults replace settings without a schema version.
  unfoldable pub new_settings_store : Settings R → D → Option (Store (Settings R) D)
  unfolding opened
  new_settings_store defaults disk = elim (file.decode defaults disk) [
    | none ↦ none
    | some s ↦
        if is_empty s.schema_version
        then opened file true defaults disk
        else opened file false s disk
  ]

  unfoldable pub save_settings : Settings R → Store (Settings R) D → Outcome × Store (Settings R) D
  unfolding write_back
  save_settings settings s = write_back file settings s

-- The two List, with the library's sort by a `less` on two elements.
module _ {R D : Type 0} where
  unfoldable pub list_projects :
      ((Project R → Project R → Bool) → List (Project R) → List (Project R))
      → Store (Table (Project R)) D
      → List (Project R)
  unfolding bytes_less
  list_projects sort_slice s = sort_slice (λ a b. bytes_less a.id b.id) (values s.data_)

  unfoldable pub list_products :
      ((Product R → Product R → Bool) → List (Product R) → List (Product R))
      → Store (Table (Product R)) D
      → List (Product R)
  unfolding bytes_less
  list_products sort_slice s = sort_slice (λ a b. bytes_less a.name b.name) (values s.data_)

  -- JSONSettingsStore.Get
  unfoldable pub get_settings : Store (Settings R) D → Settings R
  get_settings s = s.data_
