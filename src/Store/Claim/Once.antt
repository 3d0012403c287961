-- ===== src/Store/Claim/Once.antt =====
-- A bootstrap token is claimed once.
use mathlib.Core.Path.{subst}
use runner.Prelude.{
  ℕ, Bool, true, false, not, Option, none, some, ◌≡◌, ap, ◌∙◌, arith, Bool-cases, inl, inr,
}
use runner.Prelude.Bytes.{Bytes, trim_space}
use runner.Store.Table.{Table, get-put}
use runner.Store.Claim.{
  Value, text, Session, Request, Refusal, token_already_used, refuse_if, claim_updates, Claimed,
  claimed, refused, is_empty, text_at, identity_conflict, add_steps, mark_used,
  apply_bootstrap_token_claim,
}

-- What Format is known to do: the time it prints is not blank.
abbrev pub PrintsTime : (ℕ → Bytes) → Type 0
PrintsTime format_time = (n : ℕ) → is_empty (trim_space (trim_space (format_time n))) ≡ false

pub data IsRefused {V : Type 0} : Claimed V → Type 0 where
  is_refused : (r : Refusal) → IsRefused (refused r)

abbrev MarkedIn : {V : Type 0} → Bytes → Claimed V → Type 0
MarkedIn key (claimed s) = is_empty (text_at key s.data_) ≡ false
MarkedIn key (refused r) = Unit

-- A claimed session holds a text under the key.
record Marks {V : Type 0} (key : Bytes) (c : Claimed V) : Type 0 where
  marked : MarkedIn key c

module _ {V : Type 0} where
  mark_used_lem :
      (format_time : ℕ → Bytes) (key : Bytes) (now : ℕ) (data_ : Table (Value V))
      → PrintsTime format_time
      → is_empty key ≡ false
      → is_empty (text_at key (mark_used format_time key now data_)) ≡ false
  unfolding mark_used
  mark_used_lem format_time key now data_ prints named =
      elim (Bool-cases (is_empty (text_at key data_))) [
        | inr present ↦ rw (named, present) present
        | inl absent ↦ rw (named, absent, get-put key (text (format_time now)) data_) (prints now)
      ]

module _ {V : Type 0} where
  refuse_if-IsRefused :
      (b : Bool) (e : Refusal) (c : Claimed V) → IsRefused c → IsRefused (refuse_if b e c)
  unfolding refuse_if
  refuse_if-IsRefused true e c h = is_refused e
  refuse_if-IsRefused false e c h = h

  refuse_if-Marks :
      (key : Bytes) (b : Bool) (e : Refusal) (c : Claimed V)
      → Marks key c
      → Marks key (refuse_if b e c)
  unfolding refuse_if
  refuse_if-Marks key true e c h = record { marked = tt }
  refuse_if-Marks key false e c h = h

  used-IsRefused :
      (b : Bool) (c : Claimed V) → b ≡ false → IsRefused (refuse_if (not b) token_already_used c)
  unfolding refuse_if
  used-IsRefused true c h = ground arith
  used-IsRefused false c h = is_refused token_already_used

module _ {V : Type 0} (equal_fold : Bytes → Bytes → Bool) (parse_time : Bytes → Option ℕ)
    (format_time : ℕ → Bytes) where
  -- A used token is refused, whatever else holds.
  apply-IsRefused :
      (clock : ℕ) (s : Session V) (r : Request V)
      → is_empty (text_at r.token_used_at_key s.data_) ≡ false
      → IsRefused (apply_bootstrap_token_claim equal_fold parse_time format_time clock s r)
  unfolding apply_bootstrap_token_claim
  apply-IsRefused clock s r used = refuse_if-IsRefused _ _ _ (
      refuse_if-IsRefused _ _ _ (
        refuse_if-IsRefused _ _ _ (
          refuse_if-IsRefused _ _ _
            (used-IsRefused (is_empty (text_at r.token_used_at_key s.data_)) _ used))))

  claim_updates-Marks :
      (now : ℕ) (s : Session V) (r : Request V) (o : Option Bytes)
      → PrintsTime format_time
      → is_empty r.token_used_at_key ≡ false
      → Marks r.token_used_at_key (claim_updates equal_fold parse_time format_time now s r o)
  unfolding claim_updates
  claim_updates-Marks now s r (some key) prints named = record { marked = tt }
  claim_updates-Marks now s r none prints named = record {
    marked =
        mark_used_lem format_time r.token_used_at_key now (add_steps r.step_data s.data_) prints
          named;
  }

  claim-Marks :
      (clock : ℕ) (s : Session V) (r : Request V)
      → PrintsTime format_time
      → is_empty r.token_used_at_key ≡ false
      → Marks r.token_used_at_key
          (apply_bootstrap_token_claim equal_fold parse_time format_time clock s r)
  unfolding apply_bootstrap_token_claim
  claim-Marks clock s r prints named =
      let next = refuse_if-Marks r.token_used_at_key in
      next _ _ _ (
        next _ _ _ (
          next _ _ _ (
            next _ _ _ (
              next _ _ _ (
                next _ _ _ (
                  claim_updates-Marks _ s r (identity_conflict r.identity s.data_) prints
                    named))))))

  -- A bootstrap token is good for one claim: on the session that a claim has returned, every
  -- further claim with the same key for the time of use is refused, whatever its request and its
  -- time, and whatever the steps of the first claim wrote. The key must not be empty, and a
  -- formatted time not blank.
  pub claim-once :
      (clock clock2 : ℕ) (s claimed_session : Session V) (r r2 : Request V)
      → PrintsTime format_time
      → is_empty r.token_used_at_key ≡ false
      → apply_bootstrap_token_claim equal_fold parse_time format_time clock s r
        ≡ claimed claimed_session
      → r2.token_used_at_key ≡ r.token_used_at_key
      → IsRefused
          (apply_bootstrap_token_claim equal_fold parse_time format_time clock2 claimed_session r2)
  claim-once clock clock2 s u r r2 prints named first same = apply-IsRefused clock2 u r2 (
      ap (λ k. is_empty (text_at k u.data_)) same
      ∙ (subst (Marks r.token_used_at_key) first (claim-Marks clock s r prints named)).marked)
