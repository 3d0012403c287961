-- ===== src/Store/Tests.antt =====
-- Small stores, and the witnesses of the theorems on the stores.
use mathlib.Core.Path.{subst}
use runner.Prelude.{
  ℕ, suc, ◌≤◌, not, all, arith, Bool-cases, inl, inr, ◌&&◌, Bool, true, false, List, [], ◌∷◌,
  Option, none, some, ◌≡◌, ◌≢◌, refl, ◌⊎◌, if◌then◌else◌,
}
use runner.Prelude.Bytes.{Bytes, codes, bytes_eq, trim_space}
use runner.Store.Table.{Table, get, put}
use runner.Store.Environment.{
  Environment, new_environment_record, JsonStore, conflict, save, delete, get_record,
  get_environment, written,
}
use runner.Store.Environment.History.{
  Call, IsStale, saves, deletes, time_of, perform_all, delete-get_record, perform_all-time_of,
  save-get_environment,
}
use runner.Store.Claim.{
  text, Session, Request, claimed, refuse_if, identity_conflict, mark_used, add_steps, is_expired,
  claim_updates, apply_bootstrap_token_claim,
}
use runner.Store.Claim.Once.{IsRefused, claim-once}
use runner.Store.Session.{first, SessionStore, Library, new_session_store, claim_bootstrap_token}
use runner.Store.Session.Keyed.{opens as session_opens, claims, Reached-IsKeyed}
use runner.Store.Session.Transaction.{IsKeyed, IsTransaction, claim_bootstrap_token-IsTransaction}
use runner.Store.Config.{ProjectConfig, ConfigStore, later_first, latest}
use runner.Store.Config.Newest.{Sorts, IsLatest, latest-IsLatest}
use runner.Store.Catalog.{
  File, Product, Store, not_found, new_product_store, normalize_product_name, get_product,
  save_product, delete_product, written as outcome_of,
}
use runner.Store.Catalog.Named.{
  IsNamed, opens, saves as product_saves, Reached-IsNamed, save_product-get_product,
}

abbrev environment_at : ℕ → Environment Unit
environment_at time = record {
  id = codes "env";
  tenant_id = [];
  project = codes "shop";
  pull_request_id = codes "7";
  branch = [];
  commit = [];
  status = codes "ready";
  mode = [];
  ttl_hours = 0;
  created_at = 5;
  updated_at = time;
  rest = tt;
}

-- A disk that counts the writes and fails none.
abbrev counts : {A : Type 0} → A → ℕ → Bool × ℕ
counts a n = (true, suc n)

abbrev no_environments : JsonStore Unit ℕ
no_environments = record { data_ = []; disk = 0 }

abbrev one_environment : JsonStore Unit ℕ
one_environment = (save counts (environment_at 9) no_environments).1

-- An older save is a conflict.
older_refused : (save counts (environment_at 8) one_environment).0 ≡ conflict
unfolding save get put bytes_eq
older_refused = refl

-- A payload without an id, a status and times.
abbrev partial : Environment Unit
partial = record (environment_at 9) { id = []; status = []; created_at = 0; updated_at = 0 }

save-get_environment_example :
    (IsStale (environment_at 12) (get_record (codes "env") one_environment)
      × (save counts (environment_at 12) one_environment ≡ (conflict, one_environment)))
    ⊎ ((¬ IsStale (environment_at 12) (get_record (codes "env") one_environment))
        × (get_environment (codes "env") (save counts (environment_at 12) one_environment).1
            ≡ some (environment_at 12))
        × (get_record (codes "other") (save counts (environment_at 12) one_environment).1 ≡ (
            if bytes_eq (codes "env") (codes "other")
            then some (new_environment_record (environment_at 12))
            else get_record (codes "other") one_environment))
        × ((save counts (environment_at 12) one_environment).0
            ≡ written
                (counts
                  (save counts (environment_at 12) one_environment).1.data_
                  one_environment.disk).0))
save-get_environment_example =
    save-get_environment counts (environment_at 12) (codes "other") one_environment

delete-get_record_example :
    get_record (codes "env") (delete counts (codes "env") one_environment).1 ≡ (
      if bytes_eq (codes "env") (codes "env")
      then none
      else get_record (codes "env") one_environment)
delete-get_record_example = delete-get_record counts (codes "env") (codes "env") one_environment

abbrev calls : List (Call Unit)
calls = saves (environment_at 12) ∷ saves (environment_at 8) ∷ deletes (codes "other") ∷ []

perform_all-time_of_example :
    time_of (get_record (codes "env") one_environment)
    ≤ time_of (get_record (codes "env") (perform_all counts calls one_environment))
unfolding bytes_eq
perform_all-time_of_example =
    perform_all-time_of counts (codes "env") calls one_environment (tt, (tt, (refl, tt)))

-- A session with a token that expires at 9, and its claim at 5.
abbrev session : Session Unit
session = record {
  id = codes "s";
  project_id = codes "shop";
  created_by = [];
  status = [];
  current_step = 1;
  data_ = (codes "hash", text (codes "h")) ∷ (codes "expires", text (codes "soon")) ∷ [];
  created_at = 1;
  updated_at = 1;
}

abbrev request : Request Unit
request = record {
  project_id = codes "shop";
  token_project_key = [];
  token_hash_key = codes "hash";
  token_hash = codes "h";
  token_used_at_key = codes "used";
  token_expires_key = codes "expires";
  identity = [];
  step_data = (codes "cluster", text (codes "c")) ∷ [];
  now = 5;
}

abbrev parse_soon : Bytes → Option ℕ
parse_soon s = some 9

abbrev format_digit : ℕ → Bytes
format_digit n = codes "t"

abbrev claimed_session : Session Unit
claimed_session = record session {
  data_ =
      (codes "hash", text (codes "h"))
      ∷ (codes "expires", text (codes "soon"))
      ∷ (codes "cluster", text (codes "c"))
      ∷ (codes "used", text (codes "t"))
      ∷ [];
  updated_at = 5;
}

claim_granted :
    apply_bootstrap_token_claim bytes_eq parse_soon format_digit 5 session request
    ≡ claimed claimed_session
unfolding apply_bootstrap_token_claim refuse_if is_expired claim_updates identity_conflict add_steps
    mark_used bytes_eq trim_space get put
claim_granted = refl

claim-once_example :
    IsRefused
      (apply_bootstrap_token_claim bytes_eq parse_soon format_digit 6 claimed_session request)
unfolding trim_space
claim-once_example =
    claim-once bytes_eq parse_soon format_digit 5 6 session claimed_session request request
      (λ n. refl) refl claim_granted refl

abbrev library : Library Unit ℕ
library = record {
  equal_fold = bytes_eq;
  parse_time = parse_soon;
  format_time = format_digit;
  after = λ a b. false;
  sort_slice = λ less xs. xs;
  persist = λ table n. (false, suc n);
}

abbrev sessions : SessionStore Unit ℕ
sessions = record { data_ = (codes "s", session) ∷ []; disk = 0 }

sessions_opened :
    new_session_store (λ (n : ℕ). some ((codes " s ", session) ∷ [])) 0 ≡ some sessions
unfolding new_session_store trim_space put
sessions_opened = refl

Reached-IsKeyed_example : IsKeyed (claim_bootstrap_token library 5 request sessions).1.data_
Reached-IsKeyed_example =
    Reached-IsKeyed library (claim_bootstrap_token library 5 request sessions).1 (λ less xs f h. h)
      (claims 5 request sessions
        (session_opens (λ (n : ℕ). some ((codes " s ", session) ∷ [])) 0 sessions sessions_opened))

-- The file cannot be written, and the claim is taken back.
claim_bootstrap_token-IsTransaction_example :
    IsTransaction sessions (claim_bootstrap_token library 5 request sessions)
unfolding bytes_eq
claim_bootstrap_token-IsTransaction_example =
    claim_bootstrap_token-IsTransaction library 5 request sessions (λ less xs f h. h) (refl, tt)

-- A sort by insertion.
abbrev insert : {A : Type 0} → (A → A → Bool) → A → List A → List A
insert less a [] = a ∷ []
insert less a (b ∷ bs) = let rest = insert less a bs in if less b a then b ∷ rest else a ∷ b ∷ bs

abbrev sort : {A : Type 0} → (A → A → Bool) → List A → List A
sort less [] = []
sort less (a ∷ as_) = insert less a (sort less as_)

module _ {A : Type 0} (less : A → A → Bool) (f : A → Bool) where
  insert-all : (a : A) (xs : List A) → all f (insert less a xs) ≡ (f a && all f xs)
  insert-all a [] = refl
  insert-all a (b ∷ bs) = ground (arith, insert-all a bs)

  sort-all : (xs : List A) → all f (sort less xs) ≡ all f xs
  sort-all [] = refl
  sort-all (a ∷ as_) = ground (arith, insert-all a (sort less as_), sort-all as_)

abbrev AllBehind : {C : Type 0} → List (ProjectConfig C) → Option (ProjectConfig C) → Type 0
AllBehind xs none = Unit
AllBehind xs (some c) = all (λ d. not (later_first d c)) xs ≡ true

module _ {C : Type 0} where
  later_first_asym : (a b : ProjectConfig C) → later_first a b ≡ true → not (later_first b a) ≡ true
  unfolding later_first
  later_first_asym a b h = ground arith

  later_first_irrefl : (a : ProjectConfig C) → not (later_first a a) ≡ true
  unfolding later_first
  later_first_irrefl a = ground arith

  later_first_trans :
      (d b a : ProjectConfig C)
      → later_first b a ≡ false
      → not (later_first d b) ≡ true
      → not (later_first d a) ≡ true
  unfolding later_first
  later_first_trans d b a h k = ground arith

  all_trans :
      (b a : ProjectConfig C) (xs : List (ProjectConfig C))
      → later_first b a ≡ false
      → all (λ d. not (later_first d b)) xs ≡ true
      → all (λ d. not (later_first d a)) xs ≡ true
  all_trans b a [] h k = refl
  all_trans b a (d ∷ xs) h k = ground (arith, later_first_trans d b a h, all_trans b a xs h)

  -- No element comes before the first of the sorted list.
  abbrev Heads : List (ProjectConfig C) → List (ProjectConfig C) → Type 0
  Heads xs [] = xs ≡ []
  Heads xs (b ∷ bs) = all (λ d. not (later_first d b)) xs ≡ true

  insert-Heads :
      (a : ProjectConfig C) (xs sorted : List (ProjectConfig C))
      → Heads xs sorted
      → Heads (a ∷ xs) (insert later_first a sorted)
  insert-Heads a xs [] h = rw h (ground (arith, later_first_irrefl a))
  insert-Heads a xs (b ∷ bs) h = elim (Bool-cases (later_first b a)) [
    | inl before ↦ rw before (ground (arith, later_first_asym b a before, h))
    | inr behind ↦ rw behind (ground (arith, later_first_irrefl a, all_trans b a xs behind h))
  ]

  sort-Heads : (xs : List (ProjectConfig C)) → Heads xs (sort later_first xs)
  sort-Heads [] = refl
  sort-Heads (a ∷ xs) = insert-Heads a xs (sort later_first xs) (sort-Heads xs)

  Heads-first :
      (xs sorted : List (ProjectConfig C)) (c : ProjectConfig C)
      → Heads xs sorted
      → first sorted ≡ some c
      → all (λ d. not (later_first d c)) xs ≡ true
  Heads-first xs [] c h e = ground arith
  Heads-first xs (b ∷ bs) c h e = subst (λ o. AllBehind xs o) e h

  sort-Sorts : Sorts {C = C} sort
  sort-Sorts = record {
    keeps = λ less xs f. sort-all less f xs;
    heads = λ xs c. Heads-first xs (sort later_first xs) c (sort-Heads xs);
  }

abbrev configs : ConfigStore Unit ℕ
configs = record {
  data_ =
      (
        codes "a",
        record {
          id = codes "a";
          project_id = codes "shop";
          version = 1;
          config = none;
          sensitive = none;
          created_at = 9;
        },
      )
      ∷ (
        codes "b",
        record {
          id = codes "b";
          project_id = codes "shop";
          version = 2;
          config = none;
          sensitive = none;
          created_at = 3;
        },
      )
      ∷ [];
  disk = 0;
}

latest-IsLatest_example :
    IsLatest (trim_space (codes " shop ")) configs (latest sort (codes " shop ") configs)
latest-IsLatest_example = latest-IsLatest sort (codes " shop ") configs sort-Sorts

-- A file that decodes to one product under a padded name; every write fails.
abbrev product_file : File (Table (Product Unit)) ℕ
product_file = record {
  decode = λ empty n. some ((codes "k", record { name = codes " shop "; rest = tt }) ∷ []);
  persist = λ table n. (false, n);
}

abbrev same_case : Bytes → Bytes
same_case s = s

abbrev products : Store (Table (Product Unit)) ℕ
products = record {
  data_ = (codes "shop", record { name = codes "shop"; rest = tt }) ∷ [];
  disk = 0;
}

products_opened : new_product_store same_case product_file [] 0 ≡ some products
unfolding new_product_store bytes_eq trim_space put
products_opened = refl

abbrev blog : Product Unit
blog = record { name = codes " blog"; rest = tt }

Reached-IsNamed_example : IsNamed (save_product same_case product_file blog products).1.data_
Reached-IsNamed_example =
    Reached-IsNamed same_case product_file (save_product same_case product_file blog products).1
      (product_saves blog products (opens [] 0 products products_opened))

abbrev saved_blog : Store (Table (Product Unit)) ℕ
saved_blog = (save_product same_case product_file blog products).1

save_product-get_product_example :
    ((normalize_product_name same_case product_file blog.name ≡ [])
      × (save_product same_case product_file blog products ≡ (not_found, products)))
    ⊎ ((normalize_product_name same_case product_file blog.name ≢ [])
        × (get_product same_case product_file (codes "shop") saved_blog ≡ (
            if bytes_eq
              (normalize_product_name same_case product_file blog.name)
              (normalize_product_name same_case product_file (codes "shop"))
            then some
                (record blog { name = normalize_product_name same_case product_file blog.name })
            else get_product same_case product_file (codes "shop") products))
        × ((save_product same_case product_file blog products).0
            ≡ outcome_of (product_file.persist saved_blog.data_ products.disk).0)
        × (get_product same_case product_file
              (codes "shop")
              (delete_product same_case product_file (codes "blog ") saved_blog).1
            ≡ (if bytes_eq
                  (normalize_product_name same_case product_file blog.name)
                  (normalize_product_name same_case product_file (codes "shop"))
                then none
                else get_product same_case product_file (codes "shop") products)))
unfolding normalize_product_name trim_space
save_product-get_product_example =
    save_product-get_product same_case product_file blog (codes "blog ") (codes "shop") products
      refl
