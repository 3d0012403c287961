-- ===== src/Store/Environment/History.antt =====
-- What a JSONStore keeps over its calls.
use mathlib.Core.Path.{subst}
use runner.Prelude.{
  ℕ, ◌≤◌, ◌<◌, Bool, true, false, List, [], ◌∷◌, Option, none, some, ◌≡◌, refl, ap, arith,
  Bool-cases, Option-cases, inl, inr, ◌⊎◌, if◌then◌else◌,
}
use runner.Prelude.Bytes.{Bytes, bytes_eq, bytes_eq→eq}
use runner.Store.Environment.Record.{environment-new_environment_record}
use runner.Store.Table.{
  Table, get, put, remove, get-put, get-put_other, get-put_all, get-remove_all, get-remove_other,
  get-missing_all,
}
use runner.Store.Environment.{
  Environment, EnvironmentRecord, new_environment_record, written, JsonStore, conflict, not_found,
  persist_locked, conflicts, save, delete, get_record, get_environment,
}

-- What Save goes by: the stored environment is newer, or the saved one has no time.
abbrev pub IsStale : {R : Type 0} → Environment R → Option (EnvironmentRecord R) → Type 0
IsStale e none = ⊥
IsStale e (some r) = (e.updated_at ≡ 0) ⊎ (e.updated_at < r.updated_at)

-- A call that changes the store.
pub data Call (R : Type 0) : Type 0 where
  saves : Environment R → Call R
  deletes : Bytes → Call R

-- The time of the last change of an environment, 0 if it is not stored.
abbrev pub time_of : {R : Type 0} → Option (EnvironmentRecord R) → ℕ
time_of none = 0
time_of (some r) = r.updated_at

abbrev pub Spares : {R : Type 0} → Bytes → Call R → Type 0
Spares id (saves e) = Unit
Spares id (deletes other) = bytes_eq other id ≡ false

abbrev pub AllSpare : {R : Type 0} → Bytes → List (Call R) → Type 0
AllSpare id [] = Unit
AllSpare id (c ∷ calls) = Spares id c × AllSpare id calls

module _ {R D : Type 0} (persist : Table (EnvironmentRecord R) → D → Bool × D) where
  unfoldable pub perform : Call R → JsonStore R D → JsonStore R D
  perform (saves e) s = (save persist e s).1
  perform (deletes id) s = (delete persist id s).1

  unfoldable pub perform_all : List (Call R) → JsonStore R D → JsonStore R D
  perform_all [] s = s
  perform_all (c ∷ calls) s = perform_all calls (perform c s)

  save_refused :
      (e : Environment R) (s : JsonStore R D)
      → conflicts persist (new_environment_record e) (get e.id s.data_) ≡ true
      → (save persist e s).1 ≡ s
  unfolding save
  save_refused e s h = rw h refl

  save_accepted :
      (e : Environment R) (s : JsonStore R D)
      → conflicts persist (new_environment_record e) (get e.id s.data_) ≡ false
      → (save persist e s).1.data_ ≡ put e.id (new_environment_record e) s.data_
  unfolding save persist_locked
  save_accepted e s h = rw h refl

  newer :
      (r : EnvironmentRecord R) (o : Option (EnvironmentRecord R))
      → conflicts persist r o ≡ false
      → time_of o ≤ r.updated_at
  newer r none h = omega arith
  newer r (some existing) h = ground arith

  put-time :
      (id key : Bytes) (r : EnvironmentRecord R) (table : Table (EnvironmentRecord R))
      → time_of (get key table) ≤ r.updated_at
      → time_of (get id table) ≤ time_of (get id (put key r table))
  put-time id key r table h = elim (Bool-cases (bytes_eq key id)) [
    | inr other ↦ rw (get-put_other key id r table other) (omega arith)
    | inl same ↦
        subst (λ k. time_of (get k table) ≤ time_of (get k (put key r table)))
          (bytes_eq→eq key id same) (rw (get-put key r table) h)
  ]

  save-time :
      (id : Bytes) (e : Environment R) (s : JsonStore R D)
      → time_of (get id s.data_) ≤ time_of (get id (save persist e s).1.data_)
  save-time id e s =
      elim (Bool-cases (conflicts persist (new_environment_record e) (get e.id s.data_))) [
        | inl refused ↦ rw (save_refused e s refused) (omega arith)
        | inr accepted ↦ rw (save_accepted e s accepted) (
            put-time id e.id (new_environment_record e) s.data_
              (newer (new_environment_record e) (get e.id s.data_) accepted))
      ]

  delete_missing :
      (id : Bytes) (s : JsonStore R D)
      → get id s.data_ ≡ none
      → delete persist id s ≡ (not_found, s)
  unfolding delete
  delete_missing id s h = rw (h, delete) refl

  delete_present :
      (id : Bytes) (s : JsonStore R D) (r : EnvironmentRecord R)
      → get id s.data_ ≡ some r
      → delete persist id s ≡ persist_locked persist (record s { data_ = remove id s.data_ })
  unfolding delete
  delete_present id s r h = rw (h, delete) refl

  delete-other :
      (id other : Bytes) (s : JsonStore R D)
      → bytes_eq id other ≡ false
      → get other (delete persist id s).1.data_ ≡ get other s.data_
  unfolding persist_locked
  delete-other id other s h = elim (Option-cases (get id s.data_)) [
    | inl missing ↦ rw (delete_missing id s missing) refl
    | inr (r, present) ↦ rw (delete_present id s r present) (get-remove_other id other s.data_ h)
  ]

  -- After Delete of an id, whatever it replied and whether or not the file was written, that id is
  -- not found and every other id has the record it had.
  pub delete-get_record :
      (id other : Bytes) (s : JsonStore R D)
      → get_record other (delete persist id s).1
        ≡ (if bytes_eq id other then none else get_record other s)
  unfolding get_record persist_locked
  delete-get_record id other s = elim (Option-cases (get id s.data_)) [
    | inl missing ↦ rw (delete_missing id s missing) (get-missing_all id other s.data_ missing)
    | inr (r, present) ↦ rw (delete_present id s r present) (get-remove_all id other s.data_)
  ]

  call-time :
      (id : Bytes) (c : Call R) (s : JsonStore R D)
      → Spares id c
      → time_of (get id s.data_) ≤ time_of (get id (perform c s).data_)
  unfolding perform
  call-time id (saves e) s h = save-time id e s
  call-time id (deletes other) s h = rw (delete-other other id s h) (omega arith)

  -- Over any sequence of calls of Save and Delete that does not delete an environment, the time of
  -- that environment's last change never goes back, whatever order the saves arrive in and whether
  -- or not the file is written.
  pub perform_all-time_of :
      (id : Bytes) (calls : List (Call R)) (s : JsonStore R D)
      → AllSpare id calls
      → time_of (get_record id s) ≤ time_of (get_record id (perform_all calls s))
  unfolding perform_all get_record
  perform_all-time_of id [] s h = omega arith
  perform_all-time_of id (c ∷ calls) s h =
      omega (arith, call-time id c s h.0, perform_all-time_of id calls (perform c s) h.1)

  get-read :
      (e : Environment R) (s : JsonStore R D)
      → get e.id s.data_ ≡ some (new_environment_record e)
      → get_environment e.id s ≡ some e
  unfolding get_environment
  get-read e s h = rw (h, get_environment) (ap some (environment-new_environment_record e))

  conflicts→IsStale :
      (e : Environment R) (o : Option (EnvironmentRecord R))
      → conflicts persist (new_environment_record e) o ≡ true
      → IsStale e o
  unfolding new_environment_record
  conflicts→IsStale e none h = cc h
  conflicts→IsStale e (some r) h = ground arith

  conflicts→not-IsStale :
      (e : Environment R) (o : Option (EnvironmentRecord R))
      → conflicts persist (new_environment_record e) o ≡ false
      → ¬ IsStale e o
  unfolding new_environment_record
  conflicts→not-IsStale e none h = λ stale. stale
  conflicts→not-IsStale e (some r) h = λ stale. ground arith

  saved-reply :
      (e : Environment R) (s : JsonStore R D)
      → conflicts persist (new_environment_record e) (get e.id s.data_) ≡ false
      → (save persist e s).0 ≡ written (persist (save persist e s).1.data_ s.disk).0
  unfolding save persist_locked
  saved-reply e s h = rw h refl

  -- Where a stored environment of the same id is newer, or there is one and the saved environment
  -- has no time, Save replies with a conflict and changes nothing. Everywhere else Get then
  -- returns the environment that was saved, no other id is touched, and the reply is what writing
  -- the new table to the file returned.
  pub save-get_environment :
      (e : Environment R) (other : Bytes) (s : JsonStore R D)
      → (IsStale e (get_record e.id s) × (save persist e s ≡ (conflict, s)))
        ⊎ ((¬ IsStale e (get_record e.id s))
            × (get_environment e.id (save persist e s).1 ≡ some e)
            × (get_record other (save persist e s).1 ≡ (
                if bytes_eq e.id other
                then some (new_environment_record e)
                else get_record other s))
            × ((save persist e s).0 ≡ written (persist (save persist e s).1.data_ s.disk).0))
  unfolding get_record
  save-get_environment e other s =
      elim (Bool-cases (conflicts persist (new_environment_record e) (get e.id s.data_))) [
        | inl refused ↦
            inl (conflicts→IsStale e (get e.id s.data_) refused, unfold save in rw refused refl)
        | inr accepted ↦ inr (
          conflicts→not-IsStale e (get e.id s.data_) accepted,
          get-read e (save persist e s).1
              (rw (save_accepted e s accepted) (get-put e.id (new_environment_record e) s.data_)),
          rw (save_accepted e s accepted)
              (get-put_all e.id other (new_environment_record e) s.data_),
          saved-reply e s accepted,
        )
      ]
