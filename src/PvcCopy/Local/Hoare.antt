-- ===== src/PvcCopy/Local/Hoare.antt =====
-- internal/pvccopy/local.go: what the operations on the disk keep, whatever their fates.
use runner.Prelude.{Bool, true, false, List, [], ◌∷◌, Option, none, some, ◌≡◌, refl}
use runner.Prelude.Action.{continue, ◌>>=◌, pure, require}
use runner.PvcCopy.Local.{Volume, Disk, Fate, done, refused, torn, Step, operate, sync}

module _ {P A : Type 0} where
  abbrev pub After : (A → Volume P → Type 0) → (Volume P → Type 0) → Option A × Disk P → Type 0
  After good bad (some a, d) = good a d.volume
  After good bad (none, d) = bad d.volume

  -- From the volumes of which `before` holds, a program that returns leads to `good`, and one that
  -- stops early to `bad`.
  pub record Ensures (before : Volume P → Type 0) (good : A → Volume P → Type 0)
      (bad : Volume P → Type 0) (m : Step P A) : Type 0 where
    pub run : (d : Disk P) → before d.volume → After good bad (m d)

module _ {P A B : Type 0} where
  continue-After :
      (mid : A → Volume P → Type 0) (good : B → Volume P → Type 0) (bad : Volume P → Type 0)
      (f : A → Step P B)
      → ((a : A) → Ensures (mid a) good bad (f a))
      → (x : Option A × Disk P) → After mid bad x
      → After good bad (continue x.0 f x.1)
  continue-After mid good bad f k (some a, d) h = (k a).run d h
  continue-After mid good bad f k (none, d) h = h

  pub bind-Ensures :
      (before : Volume P → Type 0) (mid : A → Volume P → Type 0) (good : B → Volume P → Type 0)
      (bad : Volume P → Type 0) (m : Step P A) (f : A → Step P B)
      → Ensures before mid bad m
      → ((a : A) → Ensures (mid a) good bad (f a))
      → Ensures before good bad (m >>= f)
  unfolding ◌>>=◌
  bind-Ensures before mid good bad m f km kf = record {
    run = λ d h. continue-After mid good bad f kf (m d) (km.run d h);
  }

module _ {P : Type 0} where
  pub pure-Ensures :
      {A : Type 0} (good : A → Volume P → Type 0) (bad : Volume P → Type 0) (a : A)
      → Ensures (good a) good bad (pure a)
  unfolding pure
  pure-Ensures good bad a = record { run = λ d h. h }

  pub require-Ensures :
      (before good bad : Volume P → Type 0) (test : Volume P → Bool)
      → ((v : Volume P) → before v → test v ≡ true → good v)
      → ((v : Volume P) → before v → test v ≡ false → bad v)
      → Ensures before (λ _. good) bad (λ d. require (test d.volume) d)
  unfolding require
  require-Ensures before good bad test yes_ no_ = record {
    run = λ d h. split d h (test d.volume) refl;
  }
    where
      split :
          (d : Disk P)
          → before d.volume
          → (b : Bool) → test d.volume ≡ b
          → After (λ _. good) bad (require {S = Disk P} b d)
      split d h true e = yes_ d.volume h e
      split d h false e = no_ d.volume h e

  by_fate-After :
      (before good bad : Volume P → Type 0) (whole cut : Volume P → Volume P)
      → ((v : Volume P) → before v → good (whole v))
      → ((v : Volume P) → before v → bad (cut v))
      → ((v : Volume P) → before v → bad v)
      → (d : Disk P) → before d.volume
      → After (λ _. good) bad (operate whole cut d)
  unfolding operate
  by_fate-After before good bad whole cut a b c d h = split d h d.fates refl
    where
      split :
          (d : Disk P)
          → before d.volume
          → (fs : List Fate) → d.fates ≡ fs
          → After (λ _. good) bad (operate whole cut d)
      split d h [] e = rw e (a d.volume h)
      split d h (done ∷ fs) e = rw e (a d.volume h)
      split d h (refused ∷ fs) e = rw e (c d.volume h)
      split d h (torn ∷ fs) e = rw e (b d.volume h)

  pub operate-Ensures :
      (before good bad : Volume P → Type 0) (whole cut : Volume P → Volume P)
      → ((v : Volume P) → before v → good (whole v))
      → ((v : Volume P) → before v → bad (cut v))
      → ((v : Volume P) → before v → bad v)
      → Ensures before (λ _. good) bad (operate whole cut)
  operate-Ensures before good bad whole cut a b c = record {
    run = λ d h. by_fate-After before good bad whole cut a b c d h;
  }

  pub sync-Ensures :
      (before bad : Volume P → Type 0)
      → ((v : Volume P) → before v → bad v)
      → Ensures before (λ _. before) bad sync
  unfolding sync
  sync-Ensures before bad c = operate-Ensures before before bad _ _ (λ v h. h) c c
