-- ===== src/Store/Claim.antt =====
-- internal/store/bootstrap_token_claim.go: the claim of a single-use bootstrap token against the
-- data of a session. What time.Parse, Format, Now and strings.EqualFold do is given.
pub mod Once
use runner.Prelude.{
  ℕ, Bool, true, false, not, ◌&&◌, ◌||◌, ◌==◌, ltb, List, [], ◌∷◌, Option, none, some,
  if◌then◌else◌,
}
use runner.Prelude.Bytes.{Bytes, bytes_eq, trim_space}
use runner.Store.Table.{Table, get, put}

-- A value of type any: a string, or something of another type.
pub data Value (V : Type 0) : Type 0 where
  text : Bytes → Value V
  other : V → Value V

pub record Session (V : Type 0) : Type 0 where
  pub id : Bytes
  pub project_id : Bytes
  pub created_by : Bytes
  pub status : Bytes
  pub current_step : ℕ
  pub data_ : Table (Value V)
  pub created_at : ℕ
  pub updated_at : ℕ

-- BootstrapTokenClaimRequest; the maps Identity and StepData in the order of their iteration.
pub record Request (V : Type 0) : Type 0 where
  pub project_id : Bytes
  pub token_project_key : Bytes
  pub token_hash_key : Bytes
  pub token_hash : Bytes
  pub token_used_at_key : Bytes
  pub token_expires_key : Bytes
  pub identity : List (Bytes × Bytes)
  pub step_data : List (Bytes × Value V)
  pub now : ℕ

pub data Refusal : Type 0 where
  token_invalid session_not_found token_already_used token_expired : Refusal
  identity_mismatch : Bytes → Refusal

pub data Claimed (V : Type 0) : Type 0 where
  claimed : Session V → Claimed V
  refused : Refusal → Claimed V

abbrev pub is_empty : Bytes → Bool
is_empty [] = true
is_empty (b ∷ bs) = false

-- asStoreString of what a map holds under a key.
abbrev pub as_store_string : {V : Type 0} → Option (Value V) → Bytes
as_store_string none = []
as_store_string (some (text s)) = trim_space s
as_store_string (some (other v)) = []

-- strings.TrimSpace(asStoreString(data[key]))
abbrev pub text_at : {V : Type 0} → Bytes → Table (Value V) → Bytes
text_at key data_ = trim_space (as_store_string (get key data_))

-- The first key of Identity whose value contradicts the session.
unfoldable pub identity_conflict :
    {V : Type 0} → List (Bytes × Bytes) → Table (Value V) → Option Bytes
unfolding bytes_eq
identity_conflict [] data_ = none
identity_conflict ((k, v) ∷ identity) data_ =
    let key = trim_space k in
    let expected = trim_space v in
    let existing = text_at key data_ in
    let rest = identity_conflict identity data_ in
    if is_empty key || is_empty expected
    then rest
    else if not (is_empty existing) && not (bytes_eq existing expected)
    then some key
    else rest

-- The loop over StepData.
unfoldable pub add_steps : {V : Type 0} → List (Bytes × Value V) → Table (Value V) → Table (Value V)
add_steps [] data_ = data_
add_steps ((k, v) ∷ steps) data_ =
    add_steps steps (if is_empty (trim_space k) then data_ else put (trim_space k) v data_)

-- The token is used: the time of the claim stands under its key, unless a step has put one there.
unfoldable pub mark_used :
    {V : Type 0} → (ℕ → Bytes) → Bytes → ℕ → Table (Value V) → Table (Value V)
mark_used format_time key now data_ =
    if not (is_empty key) && is_empty (text_at key data_)
    then put key (text (format_time now)) data_
    else data_

-- The guards on the expiry: no text, a text that is no time, or a time that is past.
unfoldable pub is_expired : (Bytes → Option ℕ) → Bytes → ℕ → Bool
is_expired parse_time expires_at clock = elim (parse_time expires_at) [
  | none ↦ true
  | some t ↦ is_empty expires_at || ltb t clock
]

-- `if b { return e }`
unfoldable pub refuse_if : {V : Type 0} → Bool → Refusal → Claimed V → Claimed V
refuse_if true e rest = refused e
refuse_if false e rest = rest

module _ {V : Type 0} (equal_fold : Bytes → Bytes → Bool) (parse_time : Bytes → Option ℕ)
    (format_time : ℕ → Bytes) where
  -- The end of the claim: the identity's conflict, or the updated copy of the session.
  unfoldable pub claim_updates : ℕ → Session V → Request V → Option Bytes → Claimed V
  claim_updates now session request (some key) = refused (identity_mismatch key)
  claim_updates now session request none = claimed (record session {
    data_ =
        mark_used format_time request.token_used_at_key now
          (add_steps request.step_data session.data_);
    updated_at = now;
  })

  -- ApplyBootstrapTokenClaim, at the clock's time.
  unfoldable pub apply_bootstrap_token_claim : ℕ → Session V → Request V → Claimed V
  apply_bootstrap_token_claim clock session request =
      let project_id = trim_space request.project_id in
      let stored_hash = text_at request.token_hash_key session.data_ in
      let now = if request.now == 0 then clock else request.now in
      refuse_if (is_empty project_id || is_empty (trim_space request.token_hash)) token_invalid (
        refuse_if (not (equal_fold (trim_space session.project_id) project_id)) session_not_found (
          refuse_if
            (not (is_empty request.token_project_key)
              && not (bytes_eq (text_at request.token_project_key session.data_) project_id))
            token_invalid
            (refuse_if
              (is_empty stored_hash || not (bytes_eq stored_hash (trim_space request.token_hash)))
              token_invalid
              (refuse_if (not (is_empty (text_at request.token_used_at_key session.data_)))
                token_already_used
                (refuse_if
                  (is_expired parse_time (text_at request.token_expires_key session.data_) clock)
                  token_expired
                  (claim_updates now session request
                    (identity_conflict request.identity session.data_)))))))
