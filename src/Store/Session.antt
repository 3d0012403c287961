-- ===== src/Store/Session.antt =====
-- internal/store/bootstrap_session_store.go: JSONBootstrapSessionStore, over what its
-- file decodes to. The library's sort, EqualFold and Compare are given.
pub mod Transaction
pub mod Keyed
use runner.Prelude.{
  ℕ, Bool, true, false, not, ◌&&◌, ◌||◌, ◌==◌, ltb, List, [], ◌∷◌, Option, none, some,
  if◌then◌else◌,
}
use runner.Prelude.Bytes.{Bytes, bytes_eq, trim_space}
use runner.Store.Table.{Table, get, put, values}
use runner.Store.Claim.{
  Value, Session, Request, Refusal, session_not_found, Claimed, claimed, refused, is_empty,
  apply_bootstrap_token_claim,
}

pub record SessionStore (V D : Type 0) : Type 0 where
  pub data_ : Table (Session V)
  pub disk : D

-- The `less` of GetByProject: the newer first, one with a time before one without.
unfoldable pub newer_first : {V : Type 0} → (Bytes → Bytes → Bool) → Session V → Session V → Bool
newer_first after a b =
    if not (a.updated_at == 0) && not (b.updated_at == 0)
    then ltb b.updated_at a.updated_at
    else if not (a.updated_at == 0)
    then true
    else if not (b.updated_at == 0)
    then false
    else if bytes_eq a.status b.status
    then ltb b.current_step a.current_step
    else after a.id b.id

abbrev pub keep {ℓ} : {A : Type ℓ} → (A → Bool) → List A → List A
keep f [] = []
keep f (a ∷ as_) = let rest = keep f as_ in if f a then a ∷ rest else rest

abbrev pub first {ℓ} : {A : Type ℓ} → List A → Option A
first [] = none
first (a ∷ as_) = some a

-- What the store calls of the libraries.
pub record Library (V D : Type 0) : Type 0 where
  pub equal_fold : Bytes → Bytes → Bool
  pub parse_time : Bytes → Option ℕ
  pub format_time : ℕ → Bytes
  -- strings.Compare of two identifiers is positive.
  pub after : Bytes → Bytes → Bool
  pub sort_slice : (Session V → Session V → Bool) → List (Session V) → List (Session V)
  -- The file is written: true where that succeeds.
  pub persist : Table (Session V) → D → Bool × D

-- What ClaimBootstrapToken returns.
pub data ClaimReply (V : Type 0) : Type 0 where
  granted : Session V → ClaimReply V
  denied : Refusal → ClaimReply V
  claim_not_written : ClaimReply V

pub data SaveReply : Type 0 where
  saved id_required project_required save_not_written : SaveReply

-- The zero value of BootstrapSession, which a missing key gives.
abbrev pub zero_session : {V : Type 0} → Session V
zero_session = record {
  id = [];
  project_id = [];
  created_by = [];
  status = [];
  current_step = 0;
  data_ = [];
  created_at = 0;
  updated_at = 0;
}

abbrev pub or_zero : {V : Type 0} → Option (Session V) → Session V
or_zero none = zero_session
or_zero (some s) = s

module _ {V D : Type 0} (lib : Library V D) where
  -- getByProjectLocked, which GetByProject repeats; none is ErrBootstrapSessionNotFound.
  unfoldable pub get_by_project : Bytes → Table (Session V) → Option (Session V)
  unfolding newer_first
  get_by_project project_id data_ =
      let wanted = trim_space project_id in
      if is_empty wanted
      then none
      else first (
          lib.sort_slice (newer_first lib.after) (
            keep (λ (s : Session V). lib.equal_fold (trim_space s.project_id) wanted)
              (values data_)))

  -- What Save writes of a session, at the clock's time.
  abbrev pub prepared : ℕ → Session V → Session V
  prepared clock session =
      let updated = if session.updated_at == 0 then clock else session.updated_at in
      record session {
        id = trim_space session.id;
        project_id = trim_space session.project_id;
        created_by = trim_space session.created_by;
        updated_at = updated;
        created_at = if session.created_at == 0 then updated else session.created_at;
      }

  unfoldable pub save_session : ℕ → Session V → SessionStore V D → SaveReply × SessionStore V D
  save_session clock session s =
      let data_ = put (trim_space session.id) (prepared clock session) s.data_ in
      let (ok, disk) = lib.persist data_ s.disk in
      if is_empty (trim_space session.id)
      then (id_required, s)
      else if is_empty (trim_space session.project_id)
      then (project_required, s)
      else (if ok then saved else save_not_written, record s { data_ = data_; disk = disk })

  -- ClaimBootstrapToken, behind ApplyBootstrapTokenClaim: the map is set back if the file is not
  -- written.
  unfoldable pub store_claim : Claimed V → SessionStore V D → ClaimReply V × SessionStore V D
  store_claim (refused e) s = (denied e, s)
  store_claim (claimed updated) s =
      let previous = or_zero (get updated.id s.data_) in
      let data_ = put updated.id updated s.data_ in
      let (ok, disk) = lib.persist data_ s.disk in
      if ok
      then (granted updated, record s { data_ = data_; disk = disk })
      else (claim_not_written, record s { data_ = put updated.id previous data_; disk = disk })

  unfoldable pub claim_session :
      ℕ → Request V → Option (Session V) → SessionStore V D → ClaimReply V × SessionStore V D
  unfolding store_claim
  claim_session clock request none s = (denied session_not_found, s)
  claim_session clock request (some session) s =
      store_claim
        (apply_bootstrap_token_claim lib.equal_fold lib.parse_time lib.format_time clock session
          request)
        s

  unfoldable pub claim_bootstrap_token :
      ℕ → Request V → SessionStore V D → ClaimReply V × SessionStore V D
  unfolding claim_session
  claim_bootstrap_token clock request s =
      claim_session clock request (get_by_project request.project_id s.data_) s

-- The loop of load: an entry with a blank key is dropped, a session with a blank id takes its key.
unfoldable pub load_sessions :
    {V : Type 0} → Table (Session V) → Table (Session V) → Table (Session V)
load_sessions [] table = table
load_sessions ((key, session) ∷ entries) table =
    let id = if is_empty (trim_space session.id) then trim_space key else session.id in
    load_sessions entries
      (if is_empty (trim_space key) then table else put id (record session { id = id }) table)

-- NewJSONBootstrapSessionStore, on what the file decodes to; none where it cannot be read or
-- decoded.
unfoldable pub new_session_store :
    {V D : Type 0} → (D → Option (Table (Session V))) → D → Option (SessionStore V D)
unfolding load_sessions
new_session_store decode disk = elim (decode disk) [
  | none ↦ none
  | some entries ↦ some (record { data_ = load_sessions entries []; disk = disk })
]
