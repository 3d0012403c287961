-- ===== src/Store/Environment.antt =====
-- internal/store/store.go and environment_record.go: JSONStore, the environments by their id, and
-- the record under which one is kept. A time is a number, 0 the zero time. The fields of an
-- Environment that the store does not look at are of any type.
pub mod Record
pub mod History
use mathlib.Core.List.{map}
use runner.Prelude.{
  ℕ, Bool, true, false, not, ◌&&◌, ◌||◌, ◌==◌, ltb, List, [], ◌∷◌, Option, none, some,
  if◌then◌else◌,
}
use runner.Prelude.Bytes.{Bytes, bytes_eq}
use runner.Store.Table.{Table, get, put, remove, values}

pub record Environment (R : Type 0) : Type 0 where
  pub id : Bytes
  pub tenant_id : Bytes
  pub project : Bytes
  pub pull_request_id : Bytes
  pub branch : Bytes
  pub commit : Bytes
  pub status : Bytes
  pub mode : Bytes
  pub ttl_hours : ℕ
  pub created_at : ℕ
  pub updated_at : ℕ
  pub rest : R

-- EnvironmentRecord
pub record EnvironmentRecord (R : Type 0) : Type 0 where
  pub tenant_id : Bytes
  pub id : Bytes
  pub project_id : Bytes
  pub pr_id : Bytes
  pub branch : Bytes
  pub commit_sha : Bytes
  pub status : Bytes
  pub type_ : Bytes
  pub ttl : ℕ
  pub created_at : ℕ
  pub updated_at : ℕ
  pub payload : Environment R

-- The tests `== ""` and IsZero, with the value taken in its place.
unfoldable pub or_text : Bytes → Bytes → Bytes
or_text [] other = other
or_text (b ∷ bs) other = b ∷ bs

unfoldable pub or_number : ℕ → ℕ → ℕ
or_number n other = if n == 0 then other else n

module _ {R : Type 0} where
  -- NewEnvironmentRecord
  unfoldable pub new_environment_record : Environment R → EnvironmentRecord R
  new_environment_record e = record {
    tenant_id = e.tenant_id;
    id = e.id;
    project_id = e.project;
    pr_id = e.pull_request_id;
    branch = e.branch;
    commit_sha = e.commit;
    status = e.status;
    type_ = e.mode;
    ttl = e.ttl_hours;
    created_at = e.created_at;
    updated_at = e.updated_at;
    payload = e;
  }

  -- EnvironmentRecord.Environment
  unfoldable pub environment : EnvironmentRecord R → Environment R
  unfolding or_text or_number
  environment r = record {
    id = or_text r.payload.id r.id;
    tenant_id = or_text r.payload.tenant_id r.tenant_id;
    project = or_text r.payload.project r.project_id;
    pull_request_id = or_text r.payload.pull_request_id r.pr_id;
    branch = or_text r.payload.branch r.branch;
    commit = or_text r.payload.commit r.commit_sha;
    status = or_text r.payload.status r.status;
    mode = or_text r.payload.mode r.type_;
    ttl_hours = or_number r.payload.ttl_hours r.ttl;
    created_at = or_number r.payload.created_at r.created_at;
    updated_at = or_number r.payload.updated_at r.updated_at;
    rest = r.payload.rest;
  }

-- nil, ErrConflict, ErrNotFound, or what writing the file returned.
pub data Reply : Type 0 where
  done conflict not_found not_written : Reply

-- JSONStore: the map and the disk that holds the file.
pub record JsonStore (R D : Type 0) : Type 0 where
  pub data_ : Table (EnvironmentRecord R)
  pub disk : D

abbrev pub written : Bool → Reply
written true = done
written false = not_written

module _ {R D : Type 0} (persist : Table (EnvironmentRecord R) → D → Bool × D) where
  -- persistLocked, behind a change of the map: the map stays changed if the file is not written.
  unfoldable pub persist_locked : JsonStore R D → Reply × JsonStore R D
  persist_locked s =
      let (ok, disk) = persist s.data_ s.disk in (written ok, record s { disk = disk })

  -- The guard of Save.
  abbrev pub conflicts : EnvironmentRecord R → Option (EnvironmentRecord R) → Bool
  conflicts r none = false
  conflicts r (some existing) = r.updated_at == 0 || ltb r.updated_at existing.updated_at

  unfoldable pub save : Environment R → JsonStore R D → Reply × JsonStore R D
  unfolding new_environment_record persist_locked
  save e s =
      let r = new_environment_record e in
      if conflicts r (get e.id s.data_)
      then (conflict, s)
      else persist_locked (record s { data_ = put e.id r s.data_ })

  unfoldable pub delete : Bytes → JsonStore R D → Reply × JsonStore R D
  unfolding persist_locked
  delete id s = elim (get id s.data_) [
    | none ↦ (not_found, s)
    | some r ↦ persist_locked (record s { data_ = remove id s.data_ })
  ]

module _ {R D : Type 0} where
  -- GetRecord; none is ErrNotFound.
  unfoldable pub get_record : Bytes → JsonStore R D → Option (EnvironmentRecord R)
  get_record id s = get id s.data_

  -- Get
  unfoldable pub get_environment : Bytes → JsonStore R D → Option (Environment R)
  unfolding environment
  get_environment id s = elim (get id s.data_) [ none ↦ none | some r ↦ some (environment r) ]

-- List and ListRecords, with the library's sort by a `less` on two elements.
module _ {R D : Type 0} where
  pub list :
      ((Environment R → Environment R → Bool) → List (Environment R) → List (Environment R))
      → JsonStore R D
      → List (Environment R)
  list sort_slice s =
      sort_slice (λ a b. ltb b.created_at a.created_at) (map environment (values s.data_))

  pub list_records :
      ((EnvironmentRecord R → EnvironmentRecord R → Bool)
        → List (EnvironmentRecord R)
        → List (EnvironmentRecord R))
      → JsonStore R D
      → List (EnvironmentRecord R)
  list_records sort_slice s = sort_slice (λ a b. ltb b.created_at a.created_at) (values s.data_)

-- An entry of the file: a record, or an environment as older versions wrote it.
pub data Raw (R : Type 0) : Type 0 where
  raw_record : EnvironmentRecord R → Raw R
  raw_environment : Environment R → Raw R

abbrev pub with_payload : {R : Type 0} → EnvironmentRecord R → Bytes → EnvironmentRecord R
with_payload r [] = record r { payload = environment r }
with_payload r (b ∷ bs) = r

module _ {R : Type 0} where
  unfoldable pub load_record : Bytes → Raw R → EnvironmentRecord R
  unfolding or_text environment new_environment_record
  load_record id (raw_record r) = with_payload (record r { id = or_text r.id id }) r.payload.id
  load_record id (raw_environment e) = new_environment_record (record e { id = or_text e.id id })

  -- The loop of load.
  unfoldable pub load_records :
      Table (Raw R) → Table (EnvironmentRecord R) → Table (EnvironmentRecord R)
  unfolding load_record
  load_records [] table = table
  load_records ((id, raw) ∷ entries) table =
      load_records entries (put (load_record id raw).id (load_record id raw) table)

module _ {R D : Type 0} where
  -- NewJSONStore, on what the file decodes to; none where it cannot be read or decoded.
  unfoldable pub new_json_store : (D → Option (Table (Raw R))) → D → Option (JsonStore R D)
  unfolding load_records
  new_json_store decode disk = elim (decode disk) [
    | none ↦ none
    | some entries ↦ some (record { data_ = load_records entries []; disk = disk })
  ]
