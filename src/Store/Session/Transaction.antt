-- ===== src/Store/Session/Transaction.antt =====
-- ClaimBootstrapToken is all or nothing.
use mathlib.Core.Path.{subst}
use runner.Prelude.{
  ℕ, Bool, true, false, List, [], ◌∷◌, Option, none, some, ◌≡◌, refl, sym, ◌∙◌, arith, Bool-cases,
  inl, inr, if◌then◌else◌, all,
}
use runner.Prelude.Bytes.{Bytes, bytes_eq, bytes_eq→eq, trim_space}
use runner.Store.Table.{Table, get, put, values, get-put, get-put_other, get-put_all}
use runner.Store.Claim.{
  Session, Request, Refusal, Claimed, claimed, refused, is_empty, identity_conflict, refuse_if,
  claim_updates, apply_bootstrap_token_claim,
}
use runner.Store.Session.{
  SessionStore, newer_first, keep, first, Library, ClaimReply, granted, denied, claim_not_written,
  or_zero, get_by_project, store_claim, claim_session, claim_bootstrap_token,
}

-- A test that all elements pass, all elements of the sorted list pass.
abbrev pub SortKeeps : {V D : Type 0} → Library V D → Type 0
SortKeeps {V = V} lib =
    (less : Session V → Session V → Bool) (xs : List (Session V)) (f : Session V → Bool)
    → all f xs ≡ true
    → all f (lib.sort_slice less xs) ≡ true

-- Every session stands under its own id.
abbrev pub IsKeyed : {V : Type 0} → Table (Session V) → Type 0
IsKeyed [] = Unit
IsKeyed ((k, s) ∷ table) = (bytes_eq k s.id ≡ true) × IsKeyed table

abbrev pub present {ℓ} : {A : Type ℓ} → Option A → Bool
present none = false
present (some a) = true

module _ {A : Type 0} where
  all-weaken :
      (f g : A → Bool) (xs : List A)
      → ((a : A) → f a ≡ true → g a ≡ true)
      → all f xs ≡ true
      → all g xs ≡ true
  all-weaken f g [] k h = refl
  all-weaken f g (a ∷ xs) k h = ground (arith, k a, all-weaken f g xs k)

  all-keep : (f g : A → Bool) (xs : List A) → all f xs ≡ true → all f (keep g xs) ≡ true
  all-keep f g [] h = refl
  all-keep f g (a ∷ xs) h = ground (arith, all-keep f g xs)

  first-all :
      (f : A → Bool) (xs : List A) (a : A) → all f xs ≡ true → first xs ≡ some a → f a ≡ true
  first-all f [] a h e = ground arith
  first-all f (x ∷ xs) a h e = ground arith

module _ {V : Type 0} where
  values-present :
      (table : Table (Session V))
      → IsKeyed table
      → all (λ (s : Session V). present (get s.id table)) (values table) ≡ true
  unfolding get values
  values-present [] h = refl
  values-present ((k, b) ∷ table) h = rw h.0 (
      all-weaken (λ (s : Session V). present (get s.id table)) _ (values table)
        (λ s found. either_found (bytes_eq k s.id) b (get s.id table) found)
        (values-present table h.1))
    where
      either_found :
          (t : Bool) (b : Session V) (o : Option (Session V))
          → present o ≡ true
          → present (if t then some b else o) ≡ true
      either_found true b o h = refl
      either_found false b o h = h

-- A claimed session has the id of the session before the claim.
abbrev pub IdIn : {V : Type 0} → Bytes → Claimed V → Type 0
IdIn id (claimed s) = s.id ≡ id
IdIn id (refused r) = Unit

pub record KeepsId {V : Type 0} (id : Bytes) (c : Claimed V) : Type 0 where
  pub same_id : IdIn id c

module _ {V : Type 0} where
  refuse_if-KeepsId :
      (id : Bytes) (b : Bool) (e : Refusal) (c : Claimed V)
      → KeepsId id c
      → KeepsId id (refuse_if b e c)
  unfolding refuse_if
  refuse_if-KeepsId id true e c h = record { same_id = tt }
  refuse_if-KeepsId id false e c h = h

module _ {V D : Type 0} (lib : Library V D) where
  claim_updates-KeepsId :
      (now : ℕ) (s : Session V) (r : Request V) (o : Option Bytes)
      → KeepsId s.id (claim_updates lib.equal_fold lib.parse_time lib.format_time now s r o)
  unfolding claim_updates
  claim_updates-KeepsId now s r (some key) = record { same_id = tt }
  claim_updates-KeepsId now s r none = record { same_id = refl }

  pub claim-KeepsId :
      (clock : ℕ) (s : Session V) (r : Request V)
      → KeepsId s.id
          (apply_bootstrap_token_claim lib.equal_fold lib.parse_time lib.format_time clock s r)
  unfolding apply_bootstrap_token_claim
  claim-KeepsId clock s r =
      let next = refuse_if-KeepsId s.id in
      next _ _ _ (
        next _ _ _ (
          next _ _ _ (
            next _ _ _ (
              next _ _ _ (
                next _ _ _ (claim_updates-KeepsId _ s r (identity_conflict r.identity s.data_)))))))

-- The map behind a claim: with the session alone replaced if the claim is granted, else as before.
abbrev pub IsTransaction :
    {V D : Type 0} → SessionStore V D → ClaimReply V × SessionStore V D → Type 0
IsTransaction s (granted u, s1) =
    (id : Bytes) → get id s1.data_ ≡ (if bytes_eq u.id id then some u else get id s.data_)
IsTransaction s (denied e, s1) = (id : Bytes) → get id s1.data_ ≡ get id s.data_
IsTransaction s (claim_not_written, s1) = (id : Bytes) → get id s1.data_ ≡ get id s.data_

module _ {V D : Type 0} (lib : Library V D) where
  or_zero_lem : (o : Option (Session V)) → present o ≡ true → some (or_zero o) ≡ o
  or_zero_lem none h = ground arith
  or_zero_lem (some s) h = refl

  rolled_back :
      (key id : Bytes) (u : Session V) (table : Table (Session V))
      → present (get key table) ≡ true
      → get id (put key (or_zero (get key table)) (put key u table)) ≡ get id table
  rolled_back key id u table h = elim (Bool-cases (bytes_eq key id)) [
    | inr other ↦
        get-put_other key id (or_zero (get key table)) (put key u table) other
        ∙ get-put_other key id u table other
    | inl same ↦
        subst (λ k. get k (put key (or_zero (get key table)) (put key u table)) ≡ get k table)
          (bytes_eq→eq key id same)
          (get-put key (or_zero (get key table)) (put key u table) ∙ or_zero_lem (get key table) h)
  ]

  outcome-IsTransaction :
      (written : Bool) (disk : D) (u : Session V) (s : SessionStore V D)
      → present (get u.id s.data_) ≡ true
      → IsTransaction s (
          if written then (granted u, record s { data_ = put u.id u s.data_; disk = disk }) else (
            claim_not_written,
            record s {
              data_ = put u.id (or_zero (get u.id s.data_)) (put u.id u s.data_);
              disk = disk;
            },
          ))
  outcome-IsTransaction true disk u s found = λ id. get-put_all u.id id u s.data_
  outcome-IsTransaction false disk u s found = λ id. rolled_back u.id id u s.data_ found

  store_claim-IsTransaction :
      (id : Bytes) (c : Claimed V) (s : SessionStore V D)
      → IdIn id c
      → present (get id s.data_) ≡ true
      → IsTransaction s (store_claim lib c s)
  unfolding store_claim
  store_claim-IsTransaction id (refused e) s same found = λ other. refl
  store_claim-IsTransaction id (claimed u) s same found =
      outcome-IsTransaction (lib.persist (put u.id u s.data_) s.disk).0
        (lib.persist (put u.id u s.data_) s.disk).1 u s
        (subst (λ k. present (get k s.data_) ≡ true) (sym same) found)

  pub found-present :
      (project_id : Bytes) (table : Table (Session V)) (session : Session V)
      → SortKeeps lib
      → IsKeyed table
      → get_by_project lib project_id table ≡ some session
      → present (get session.id table) ≡ true
  unfolding get_by_project
  found-present project_id table session sorts keyed found =
      elim (Bool-cases (is_empty (trim_space project_id))) [
        | inl blank ↦ ground arith
        | inr named ↦
            first-all (λ (s : Session V). present (get s.id table)) _ session
              (sorts (newer_first lib.after) _ (λ s. present (get s.id table))
                (all-keep (λ (s : Session V). present (get s.id table))
                  (λ (s : Session V).
                    lib.equal_fold (trim_space s.project_id) (trim_space project_id))
                  (values table) (values-present table keyed)))
              (ground arith)
      ]

  claim_session-IsTransaction :
      (clock : ℕ) (r : Request V) (o : Option (Session V)) (s : SessionStore V D)
      → ((session : Session V) → o ≡ some session → present (get session.id s.data_) ≡ true)
      → IsTransaction s (claim_session lib clock r o s)
  unfolding claim_session
  claim_session-IsTransaction clock r none s found = λ id. refl
  claim_session-IsTransaction clock r (some session) s found =
      store_claim-IsTransaction session.id _ s (claim-KeepsId lib clock session r).same_id
        (found session refl)

  -- ClaimBootstrapToken is all or nothing. If it grants a claim, the map holds the returned session
  -- under its id and every other session is as it was; if it denies one, or the file cannot be
  -- written, every session is as it was. The sessions must stand under their own ids, and the
  -- library's sort must return elements of its list.
  pub claim_bootstrap_token-IsTransaction :
      (clock : ℕ) (r : Request V) (s : SessionStore V D)
      → SortKeeps lib
      → IsKeyed s.data_
      → IsTransaction s (claim_bootstrap_token lib clock r s)
  unfolding claim_bootstrap_token
  claim_bootstrap_token-IsTransaction clock r s sorts keyed =
      claim_session-IsTransaction clock r (get_by_project lib r.project_id s.data_) s
        (λ session found. found-present r.project_id s.data_ session sorts keyed found)
