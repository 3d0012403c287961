-- ===== src/MysqlCopy/Executor/Protocol.antt =====
-- The order of the calls of ExecuteDomain, as an automaton that every run follows.
use mathlib.Core.Path.{subst}
use runner.Prelude.{
  ℕ, Bool, true, false, List, [], ◌∷◌, Option, none, some, ◌≡◌, refl, sym, ap, ◌∙◌, Option-cases,
  inl, inr,
}
use runner.MysqlCopy.Failure.{Stage, Sentinel, Error}
use runner.MysqlCopy.Executor.Types.{Result, ok, err}
use runner.MysqlCopy.Executor.{
  Transport, Event, authorized, credentials_checked, source_read, hold_taken, hold_checked,
  inspected, provisioned, restored, target_matched, shut_down, committed, released, cleaned, Run,
  Action, pure, fail, ◌>>=◌, set_stage, require, call, fail_safely, kept_sentinel, continue,
}

-- How far a run has come.
pub data Phase : Type 0 where
  fresh locked target_made data_moved data_matched target_stopped receipt_written unlocked over :
      Phase

-- 0 outside the DDL hold, 1 inside, 2 behind the end.
abbrev pub zone : Phase → ℕ
zone fresh = 0
zone unlocked = 0
zone over = 2
zone _ = 1

-- Reads and checks are made up to the release of the hold, and change no phase.
abbrev pub reading : Phase → Option Phase
reading unlocked = none
reading over = none
reading ph = some ph

abbrev pub if_held : Phase → Phase → Option Phase
if_held next fresh = none
if_held next unlocked = none
if_held next over = none
if_held next _ = some next

-- The event allowed in one phase only, by its outcome.
abbrev pub pick : Bool → Phase → Phase → Option Phase
pick true here there = some there
pick false here there = some here

-- The phase behind an event; none where the protocol does not allow the event.
abbrev pub advance : Event → Phase → Option Phase
advance (authorized stage b) ph = reading ph
advance (credentials_checked b) ph = reading ph
advance (source_read b) ph = reading ph
advance (hold_taken b) fresh = pick b fresh locked
advance (hold_checked b) ph = if_held ph ph
advance (inspected b) locked = some locked
advance (provisioned b) locked = pick b locked target_made
advance (restored b) target_made = pick b target_made data_moved
advance (target_matched b) data_moved = pick b data_moved data_matched
advance (shut_down b) data_matched = pick b data_matched target_stopped
advance (committed r b) target_stopped = pick b target_stopped receipt_written
advance (released b) ph = if_held unlocked ph
advance (cleaned b) fresh = some over
advance (cleaned b) unlocked = some over
advance _ ph = none

abbrev pub advance? : Event → Option Phase → Option Phase
advance? e none = none
advance? e (some ph) = advance e ph

-- The phase behind a trace, which has its newest event first.
abbrev pub phase_of : List Event → Option Phase
phase_of [] = some fresh
phase_of (e ∷ trace) = advance? e (phase_of trace)

module _ {W A : Type 0} where
  -- A run that returned is in its phase; one that failed has stayed on its side of the hold.
  abbrev pub Post : (A → Phase) → ℕ → Result A × Run W → Type 0
  Post Q z (ok a, s) = phase_of s.trace ≡ some (Q a)
  Post Q z (err e, s) = (ph : Phase) × (phase_of s.trace ≡ some ph) × (zone ph ≡ z)

  pub record Triple (ph : Phase) (Q : A → Phase) (m : Action W A) : Type 0 where
    pub run : (s : Run W) → phase_of s.trace ≡ some ph → Post Q (zone ph) (m s)

module _ {W A : Type 0} where
  pub Triple-pure : (ph : Phase) (a : A) → Triple {W = W} ph (λ _. ph) (pure a)
  unfolding pure
  Triple-pure ph a = record { run = λ s h. h }

  pub Triple-fail : (ph : Phase) (Q : A → Phase) (e : Sentinel) → Triple {W = W} ph Q (fail e)
  unfolding fail
  Triple-fail ph Q e = record { run = λ s h. (ph, h, refl) }

  pub Triple-call :
      (ph : Phase) (Q : A → Phase) (f : W → A × W) (event : A → Event)
      → ((a : A) → advance (event a) ph ≡ some (Q a))
      → Triple ph Q (call f event)
  unfolding call
  Triple-call ph Q f event k = record {
    run = λ s h. ap (advance? (event (f s.world).0)) h ∙ k (f s.world).0;
  }

  -- An action that does on each state what an action with a triple does there.
  pub Triple-on :
      (ph : Phase) (Q : A → Phase) (m : Action W A)
      → ((s : Run W) → (n : Action W A) × Triple ph Q n × (m s ≡ n s))
      → Triple ph Q m
  Triple-on ph Q m each = record {
    run = λ s h. subst (Post Q (zone ph)) (sym (each s).2) ((each s).1.run s h);
  }

  pub stopped_equation :
      (t : Transport W) (e : Error) (s : Run W) (c : Sentinel)
      → t.ctx_err s.world ≡ some c
      → fail_safely {A = A} t e s ≡ fail c s
  unfolding fail_safely
  stopped_equation t e s c h = rw (h, fail_safely) refl

  pub kept_equation :
      (t : Transport W) (e : Error) (s : Run W)
      → t.ctx_err s.world ≡ none
      → fail_safely {A = A} t e s ≡ fail (kept_sentinel e) s
  unfolding fail_safely
  kept_equation t e s h = rw (h, fail_safely) refl

  pub Triple-fail_safely :
      (t : Transport W) (ph : Phase) (Q : A → Phase) (e : Error) → Triple ph Q (fail_safely t e)
  Triple-fail_safely t ph Q e = Triple-on ph Q (fail_safely t e) λ s.
      elim (Option-cases (t.ctx_err s.world)) [
        | inl going ↦
            (fail (kept_sentinel e), Triple-fail ph Q (kept_sentinel e), kept_equation t e s going)
        | inr (c, stopped) ↦ (fail c, Triple-fail ph Q c, stopped_equation t e s c stopped)
      ]

module _ {W A B : Type 0} where
  Triple-continue :
      (ph : Phase) (R : B → Phase) (f : A → Action W B) (Q : A → Phase) (z : ℕ)
      → ((a : A) → Triple (Q a) R (f a))
      → ((a : A) → zone (Q a) ≡ z)
      → (r : Result A × Run W) → Post Q z r
      → Post R z (continue r.0 f r.1)
  Triple-continue ph R f Q z k same (ok a, s) h =
      subst (λ n. Post R n (f a s)) (same a) ((k a).run s h)
  Triple-continue ph R f Q z k same (err e, s) h = h

  pub Triple-bind :
      (ph : Phase) (Q : A → Phase) (R : B → Phase) (m : Action W A) (f : A → Action W B)
      → Triple ph Q m
      → ((a : A) → Triple (Q a) R (f a))
      → ((a : A) → zone (Q a) ≡ zone ph)
      → Triple ph R (m >>= f)
  unfolding ◌>>=◌
  Triple-bind ph Q R m f km kf same = record {
    run = λ s h. Triple-continue ph R f Q (zone ph) kf same (m s) (km.run s h);
  }

module _ {W : Type 0} where
  pub Triple-set_stage :
      (ph : Phase) (stage : Stage) → Triple {W = W} ph (λ _. ph) (set_stage stage)
  unfolding set_stage
  Triple-set_stage ph stage = record { run = λ s h. h }

  pub Triple-require :
      (ph : Phase) (b : Bool) (e : Sentinel) → Triple {W = W} ph (λ _. ph) (require b e)
  unfolding require
  Triple-require ph true e = Triple-pure ph tt
  Triple-require ph false e = Triple-fail ph (λ _. ph) e
