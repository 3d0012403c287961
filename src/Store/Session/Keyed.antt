-- ===== src/Store/Session/Keyed.antt =====
-- The sessions of a JSONBootstrapSessionStore stand under their own ids.
use mathlib.Core.Path.{subst}
use runner.Prelude.{
  ℕ, Bool, true, false, [], ◌∷◌, Option, none, some, ◌≡◌, refl, sym, arith, Bool-cases,
  Option-cases, inl, inr, if◌then◌else◌,
}
use runner.Prelude.Bytes.{Bytes, bytes_eq, bytes_eq_refl, bytes_eq→eq, trim_space}
use runner.Store.Table.{Table, get, put}
use runner.Store.Claim.{Session, Request, Claimed, claimed, refused, is_empty}
use runner.Store.Session.{
  SessionStore, Library, ClaimReply, granted, claim_not_written, or_zero, get_by_project, prepared,
  save_session, store_claim, claim_session, claim_bootstrap_token, load_sessions, new_session_store,
}
use runner.Store.Session.Transaction.{
  IsKeyed, SortKeeps, IdIn, present, claim-KeepsId, found-present,
}

module _ {V : Type 0} where
  put-IsKeyed :
      (key : Bytes) (s : Session V) (table : Table (Session V))
      → bytes_eq key s.id ≡ true
      → IsKeyed table
      → IsKeyed (put key s table)
  unfolding put
  put-IsKeyed key s [] same h = (same, tt)
  put-IsKeyed key s ((k, b) ∷ table) same h = elim (Bool-cases (bytes_eq k key)) [
    | inl eq ↦ rw eq (subst (λ x. bytes_eq x s.id ≡ true) (sym (bytes_eq→eq k key eq)) same, h.1)
    | inr ne ↦ rw ne (h.0, put-IsKeyed key s table same h.1)
  ]

  load_sessions-IsKeyed :
      (entries table : Table (Session V)) → IsKeyed table → IsKeyed (load_sessions entries table)
  unfolding load_sessions
  load_sessions-IsKeyed [] table h = h
  load_sessions-IsKeyed ((key, session) ∷ entries) table h = load_sessions-IsKeyed entries _ (
      kept (is_empty (trim_space key))
        (if is_empty (trim_space session.id) then trim_space key else session.id))
    where
      kept :
          (b : Bool) (id : Bytes)
          → IsKeyed (if b then table else put id (record session { id = id }) table)
      kept true id = h
      kept false id = put-IsKeyed id (record session { id = id }) table (bytes_eq_refl id) h

  abbrev FoundKeyed : Bytes → Option (Session V) → Type 0
  FoundKeyed key none = Unit
  FoundKeyed key (some s) = bytes_eq key s.id ≡ true

  either-FoundKeyed :
      (key : Bytes) (t : Bool) (b : Session V) (o : Option (Session V))
      → (t ≡ true → bytes_eq key b.id ≡ true)
      → FoundKeyed key o
      → FoundKeyed key (if t then some b else o)
  either-FoundKeyed key true b o hb ho = hb refl
  either-FoundKeyed key false b o hb ho = ho

  get-FoundKeyed :
      (key : Bytes) (table : Table (Session V)) → IsKeyed table → FoundKeyed key (get key table)
  unfolding get
  get-FoundKeyed key [] h = tt
  get-FoundKeyed key ((k, b) ∷ table) h =
      either-FoundKeyed key (bytes_eq k key) b (get key table)
        (λ eq. subst (λ x. bytes_eq x b.id ≡ true) (bytes_eq→eq k key eq) h.0)
        (get-FoundKeyed key table h.1)

  or_zero-keyed :
      (key : Bytes) (o : Option (Session V))
      → FoundKeyed key o
      → present o ≡ true
      → bytes_eq key (or_zero o).id ≡ true
  or_zero-keyed key none h found = ground arith
  or_zero-keyed key (some s) h found = h

abbrev BehindKeyed : {V D : Type 0} → ClaimReply V × SessionStore V D → Type 0
BehindKeyed (r, s) = IsKeyed s.data_

module _ {V D : Type 0} (lib : Library V D) where
  -- The stores that the constructor and the calls reach.
  pub data Reached : SessionStore V D → Type 0 where
    opens :
        (decode : D → Option (Table (Session V))) (disk : D) (s : SessionStore V D)
        → new_session_store decode disk ≡ some s
        → Reached s
    saves :
        (clock : ℕ) (session : Session V) (s : SessionStore V D)
        → Reached s
        → Reached (save_session lib clock session s).1
    claims :
        (clock : ℕ) (r : Request V) (s : SessionStore V D)
        → Reached s
        → Reached (claim_bootstrap_token lib clock r s).1

  written-IsKeyed :
      (written : Bool) (disk : D) (u : Session V) (s : SessionStore V D)
      → IsKeyed s.data_
      → present (get u.id s.data_) ≡ true
      → BehindKeyed (
          if written then (granted u, record s { data_ = put u.id u s.data_; disk = disk }) else (
            claim_not_written,
            record s {
              data_ = put u.id (or_zero (get u.id s.data_)) (put u.id u s.data_);
              disk = disk;
            },
          ))
  written-IsKeyed true disk u s h found = put-IsKeyed u.id u s.data_ (bytes_eq_refl u.id) h
  written-IsKeyed false disk u s h found =
      put-IsKeyed u.id (or_zero (get u.id s.data_)) (put u.id u s.data_)
        (or_zero-keyed u.id (get u.id s.data_) (get-FoundKeyed u.id s.data_ h) found)
        (put-IsKeyed u.id u s.data_ (bytes_eq_refl u.id) h)

  store_claim-IsKeyed :
      (id : Bytes) (c : Claimed V) (s : SessionStore V D)
      → IsKeyed s.data_
      → IdIn id c
      → present (get id s.data_) ≡ true
      → IsKeyed (store_claim lib c s).1.data_
  unfolding store_claim
  store_claim-IsKeyed id (refused e) s h same found = h
  store_claim-IsKeyed id (claimed u) s h same found =
      written-IsKeyed (lib.persist (put u.id u s.data_) s.disk).0
        (lib.persist (put u.id u s.data_) s.disk).1 u s h
        (subst (λ k. present (get k s.data_) ≡ true) (sym same) found)

  claim_session-IsKeyed :
      (clock : ℕ) (r : Request V) (o : Option (Session V)) (s : SessionStore V D)
      → IsKeyed s.data_
      → ((session : Session V) → o ≡ some session → present (get session.id s.data_) ≡ true)
      → IsKeyed (claim_session lib clock r o s).1.data_
  unfolding claim_session
  claim_session-IsKeyed clock r none s h found = h
  claim_session-IsKeyed clock r (some session) s h found =
      store_claim-IsKeyed session.id _ s h (claim-KeepsId lib clock session r).same_id
        (found session refl)

  claim_bootstrap_token-IsKeyed :
      (clock : ℕ) (r : Request V) (s : SessionStore V D)
      → SortKeeps lib
      → IsKeyed s.data_
      → IsKeyed (claim_bootstrap_token lib clock r s).1.data_
  unfolding claim_bootstrap_token
  claim_bootstrap_token-IsKeyed clock r s sorts h =
      claim_session-IsKeyed clock r (get_by_project lib r.project_id s.data_) s h
        (λ session found. found-present lib r.project_id s.data_ session sorts h found)

  save_session-IsKeyed :
      (clock : ℕ) (session : Session V) (s : SessionStore V D)
      → IsKeyed s.data_
      → IsKeyed (save_session lib clock session s).1.data_
  unfolding save_session
  save_session-IsKeyed clock session s h = elim (Bool-cases (is_empty (trim_space session.id))) [
    | inl blank ↦ rw blank h
    | inr named ↦ elim (Bool-cases (is_empty (trim_space session.project_id))) [
      | inl blank ↦ rw (named, blank) h
      | inr full ↦
          rw (named, full)
            (put-IsKeyed (trim_space session.id) (prepared lib clock session) s.data_
              (bytes_eq_refl (trim_space session.id)) h)
    ]
  ]

  decoded_equation :
      (decode : D → Option (Table (Session V))) (disk : D) (entries : Table (Session V))
      → decode disk ≡ some entries
      → new_session_store decode disk
        ≡ some (record { data_ = load_sessions entries []; disk = disk })
  unfolding new_session_store
  decoded_equation decode disk entries h = rw (h, new_session_store) refl

  broken_equation :
      (decode : D → Option (Table (Session V))) (disk : D)
      → decode disk ≡ none
      → new_session_store decode disk ≡ none
  unfolding new_session_store
  broken_equation decode disk h = rw (h, new_session_store) refl

  abbrev OpenKeyed : Option (SessionStore V D) → Type 0
  OpenKeyed none = Unit
  OpenKeyed (some s) = IsKeyed s.data_

  opens-IsKeyed :
      (decode : D → Option (Table (Session V))) (disk : D)
      → OpenKeyed (new_session_store decode disk)
  opens-IsKeyed decode disk = elim (Option-cases (decode disk)) [
    | inl broken ↦ rw (broken_equation decode disk broken) tt
    | inr (entries, decoded) ↦
        rw (decoded_equation decode disk entries decoded) (load_sessions-IsKeyed entries [] tt)
  ]

  -- In every store that NewJSONBootstrapSessionStore has opened, from any file, and that any calls
  -- of Save and ClaimBootstrapToken have changed, whether or not they could write the file, each
  -- session stands under its own id. The library's sort must return elements of its list.
  pub Reached-IsKeyed : (s : SessionStore V D) → SortKeeps lib → Reached s → IsKeyed s.data_
  Reached-IsKeyed s sorts (opens decode disk s0 e) = subst OpenKeyed e (opens-IsKeyed decode disk)
  Reached-IsKeyed s sorts (saves clock session s0 h) =
      save_session-IsKeyed clock session s0 (Reached-IsKeyed s0 sorts h)
  Reached-IsKeyed s sorts (claims clock r s0 h) =
      claim_bootstrap_token-IsKeyed clock r s0 sorts (Reached-IsKeyed s0 sorts h)
