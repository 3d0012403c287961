-- ===== src/Prelude/Action.antt =====
-- Programs on a state that may stop early: none is an error, and the state is kept with it.
use mathlib.Core.Bool.{Bool, true, false}
use mathlib.Core.Option.{Option, none, some}

abbrev pub Stateful : Type 0 → Type 0 → Type 0
Stateful S A = S → Option A × S

module _ {S A B : Type 0} where
  abbrev pub continue : Option A → (A → Stateful S B) → Stateful S B
  continue (some a) f s = f a s
  continue none f s = (none, s)

  infixl 10 ◌>>=◌ ◌>>◌
  unfoldable pub ◌>>=◌ : Stateful S A → (A → Stateful S B) → Stateful S B
  ◌>>=◌ m f s = let (r, s1) = m s in continue r f s1

  abbrev pub ◌>>◌ : Stateful S A → Stateful S B → Stateful S B
  m >> n = m >>= λ _. n

unfoldable pub pure : {S A : Type 0} → A → Stateful S A
pure a s = (some a, s)

unfoldable pub require : {S : Type 0} → Bool → Stateful S Unit
require true s = (some tt, s)
require false s = (none, s)

abbrev pub is_some {ℓ} : {A : Type ℓ} → Option A → Bool
is_some none = false
is_some (some a) = true
