-- ===== src/PvcCopy/Executor/Protocol.antt =====
-- internal/pvccopy/executor.go: the order of what Execute does, as a step relation, and the rules by
-- which a program follows it.
use runner.Prelude.{Bool, true, false, List, [], ◌∷◌, Option, none, some, ◌≡◌, refl}
use runner.PvcCopy.Executor.Types.{Helper}
use runner.Prelude.Action.{continue, ◌>>=◌, pure, require, is_some}
use runner.PvcCopy.Executor.{
  Event, checked, created, not_created, waited, verified, transferred, read_again, completed, Run,
  Ask, Action, step, silent,
}

-- How far a run has come. What comes next is allowed only behind a check.
pub data Phase : Type 0 where
  fresh started source_made source_ready source_checked target_made target_ready target_checked :
      Phase
  looked cleared moved moved_checked compared compared_checked written finished : Phase

-- A check that passes leads on, or leaves a checked phase as it is.
pub data Passes : Phase → Phase → Type 0 where
  to_started : Passes fresh started
  to_source : Passes source_ready source_checked
  to_target : Passes target_ready target_checked
  again : Passes target_checked target_checked
  to_cleared : Passes looked cleared
  to_result : Passes looked finished
  to_moved : Passes moved moved_checked
  to_compared : Passes compared compared_checked
  to_finished : Passes written finished

-- A new helper is made behind a check, the target's second.
pub data Makes : Phase → Phase → Type 0 where
  source : Makes started source_made
  target : Makes source_checked target_made

pub data Waits : Phase → Phase → Type 0 where
  source : Waits source_made source_ready
  target : Waits target_made target_ready

-- The traces, newest event first, that lead to a phase, with the helpers made and not deleted. A
-- step that failed has no successor.
pub data Reaches : List Event → Phase → List Helper → Type 0 where
  begin : Reaches [] fresh []
  passed :
      {es : List Event} {ph next : Phase} {hs : List Helper}
      → Reaches es ph hs
      → Passes ph next
      → Reaches (checked true ∷ es) next hs
  made :
      {es : List Event} {ph next : Phase} {hs : List Helper} {h : Helper}
      → Reaches es ph hs
      → Makes ph next
      → Reaches (created h ∷ es) next (h ∷ hs)
  waited_for :
      {es : List Event} {ph next : Phase} {hs : List Helper}
      → Reaches es ph hs
      → Waits ph next
      → Reaches (waited true ∷ es) next hs
  inspected :
      {es : List Event} {hs : List Helper}
      → Reaches es target_checked hs
      → Reaches (verified true ∷ es) looked hs
  sent :
      {es : List Event} {hs : List Helper}
      → Reaches es cleared hs
      → Reaches (transferred true ∷ es) moved hs
  reread :
      {es : List Event} {hs : List Helper}
      → Reaches es moved_checked hs
      → Reaches (read_again true ∷ es) compared hs
  wrote :
      {es : List Event} {hs : List Helper}
      → Reaches es compared_checked hs
      → Reaches (completed true ∷ es) written hs

-- A trace that ends with a step that failed, in its place.
pub data Fails : List Event → List Helper → Type 0 where
  stopped : {es : List Event} {ph : Phase} {hs : List Helper} → Reaches es ph hs → Fails es hs
  check_failed :
      {es : List Event} {ph next : Phase} {hs : List Helper}
      → Reaches es ph hs
      → Passes ph next
      → Fails (checked false ∷ es) hs
  make_failed :
      {es : List Event} {ph next : Phase} {hs : List Helper}
      → Reaches es ph hs
      → Makes ph next
      → Fails (not_created ∷ es) hs
  wait_failed :
      {es : List Event} {ph next : Phase} {hs : List Helper}
      → Reaches es ph hs
      → Waits ph next
      → Fails (waited false ∷ es) hs
  inspect_failed :
      {es : List Event} {hs : List Helper}
      → Reaches es target_checked hs
      → Fails (verified false ∷ es) hs
  send_failed :
      {es : List Event} {hs : List Helper}
      → Reaches es cleared hs
      → Fails (transferred false ∷ es) hs
  reread_failed :
      {es : List Event} {hs : List Helper}
      → Reaches es moved_checked hs
      → Fails (read_again false ∷ es) hs
  write_failed :
      {es : List Event} {hs : List Helper}
      → Reaches es compared_checked hs
      → Fails (completed false ∷ es) hs

module _ {W A : Type 0} where
  abbrev pub Post : Phase → (A → Type 0) → Option A × Run W → Type 0
  Post next P (some a, s) = Reaches s.trace next s.helpers × P a
  Post next P (none, s) = Fails s.trace s.helpers

  -- From a phase an action that returns leads to the next one, with a value of which P holds.
  pub record Leads (ph next : Phase) (P : A → Type 0) (m : Action W A) : Type 0 where
    pub run : (s : Run W) → Reaches s.trace ph s.helpers → Post next P (m s)

abbrev pub Anything : {A : Type 0} → A → Type 0
Anything a = Unit

module _ {W A : Type 0} where
  pub pure-Leads : (ph : Phase) (P : A → Type 0) (a : A) → P a → Leads {W = W} ph ph P (pure a)
  unfolding pure
  pure-Leads ph P a h = record { run = λ s r. (r, h) }

  -- One event, which leads on if the call succeeds.
  pub step-Leads :
      (ph next : Phase) (ask : Ask W A) (event : Bool → Event)
      → ((es : List Event) (hs : List Helper)
          → Reaches es ph hs
          → Reaches (event true ∷ es) next hs)
      → ((es : List Event) (hs : List Helper) → Reaches es ph hs → Fails (event false ∷ es) hs)
      → Leads ph next Anything (step ask event)
  unfolding step
  step-Leads ph next ask event good bad = record { run = λ s r. step_post (ask s.world) s r }
    where
      step_post :
          (x : Option A × W) (s : Run W)
          → Reaches s.trace ph s.helpers
          → Post next Anything
              (x.0, record s { world = x.1; trace = event (is_some x.0) ∷ s.trace })
      step_post (some a, w) s r = (good s.trace s.helpers r, tt)
      step_post (none, w) s r = bad s.trace s.helpers r

  pub silent-Leads : (ph : Phase) (ask : Ask W A) → Leads ph ph Anything (silent ask)
  unfolding silent
  silent-Leads ph ask = record { run = λ s r. silent_post (ask s.world) s r }
    where
      silent_post :
          (x : Option A × W) (s : Run W)
          → Reaches s.trace ph s.helpers
          → Post ph Anything (x.0, record s { world = x.1 })
      silent_post (some a, w) s r = (r, tt)
      silent_post (none, w) s r = stopped r

module _ {W : Type 0} where
  pub require-Leads : (ph : Phase) (b : Bool) → Leads {W = W} ph ph (λ _. b ≡ true) (require b)
  unfolding require
  require-Leads ph true = record { run = λ s r. (r, refl) }
  require-Leads ph false = record { run = λ s r. stopped r }

module _ {W A B : Type 0} where
  continue-Post :
      (mid next : Phase) (P : A → Type 0) (Q : B → Type 0) (f : A → Action W B)
      → ((a : A) → P a → Leads mid next Q (f a))
      → (x : Option A × Run W) → Post mid P x
      → Post next Q (continue x.0 f x.1)
  continue-Post mid next P Q f k (some a, s) (r, h) = (k a h).run s r
  continue-Post mid next P Q f k (none, s) h = h

  pub bind-Leads :
      (ph mid next : Phase) (P : A → Type 0) (Q : B → Type 0) (m : Action W A) (f : A → Action W B)
      → Leads ph mid P m
      → ((a : A) → P a → Leads mid next Q (f a))
      → Leads ph next Q (m >>= f)
  unfolding ◌>>=◌
  bind-Leads ph mid next P Q m f km kf = record {
    run = λ s r. continue-Post mid next P Q f kf (m s) (km.run s r);
  }
