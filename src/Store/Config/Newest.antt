-- ===== src/Store/Config/Newest.antt =====
-- Latest returns a configuration of the project that none of it is ahead of.
use runner.Prelude.{
  Bool, true, false, not, ◌&&◌, ◌||◌, ◌==◌, ltb, leb, List, [], ◌∷◌, Option, none, some, ◌≡◌, refl,
  sym, ◌∙◌, arith, Bool-cases, inl, inr, all,
}
use runner.Prelude.Bytes.{Bytes, bytes_eq, trim_space}
use runner.Store.Table.{values}
use runner.Store.Claim.{is_empty}
use runner.Store.Session.{keep, first}
use runner.Store.Config.{ProjectConfig, ConfigStore, later_first, latest}

-- sort.Slice: a permutation, of which the elements are told apart by the tests they pass, and its
-- first element comes after no other.
pub record Sorts {C : Type 0}
    (sort_slice : (ProjectConfig C → ProjectConfig C → Bool)
      → List (ProjectConfig C)
      → List (ProjectConfig C))
    : Type 0 where
  pub keeps :
      (less : ProjectConfig C → ProjectConfig C → Bool) (xs : List (ProjectConfig C))
      (f : ProjectConfig C → Bool)
      → all f (sort_slice less xs) ≡ all f xs
  pub heads :
      (xs : List (ProjectConfig C)) (c : ProjectConfig C)
      → first (sort_slice later_first xs) ≡ some c
      → all (λ d. not (later_first d c)) xs ≡ true

-- No other version is higher, and none of the same version is newer.
abbrev pub not_ahead : {C : Type 0} → ProjectConfig C → ProjectConfig C → Bool
not_ahead d c = ltb d.version c.version || d.version == c.version && leb d.created_at c.created_at

abbrev pub IsLatest : {C D : Type 0} → Bytes → ConfigStore C D → Option (ProjectConfig C) → Type 0
IsLatest wanted s none =
    (is_empty wanted || all (λ d. not (bytes_eq d.project_id wanted)) (values s.data_)) ≡ true
IsLatest wanted s (some c) =
    (bytes_eq c.project_id wanted ≡ true)
    × (all (λ d. not (bytes_eq d.project_id wanted) || not_ahead d c) (values s.data_) ≡ true)

module _ {A : Type 0} where
  keep-all : (g : A → Bool) (xs : List A) → all g (keep g xs) ≡ true
  keep-all g [] = refl
  keep-all g (a ∷ xs) = ground (arith, keep-all g xs)

  all-kept :
      (f g : A → Bool) (xs : List A)
      → all f (keep g xs) ≡ true
      → all (λ a. not (g a) || f a) xs ≡ true
  all-kept f g [] h = refl
  all-kept f g (a ∷ xs) h = ground (arith, all-kept f g xs)

  keep-none :
      (g : A → Bool) (xs : List A)
      → all (λ a. false) (keep g xs) ≡ true
      → all (λ a. not (g a)) xs ≡ true
  keep-none g [] h = refl
  keep-none g (a ∷ xs) h = ground (arith, keep-none g xs)

  all-same :
      (f g : A → Bool) (xs : List A)
      → ((a : A) → f a ≡ true → g a ≡ true)
      → all f xs ≡ true
      → all g xs ≡ true
  all-same f g [] k h = refl
  all-same f g (a ∷ xs) k h = ground (arith, k a, all-same f g xs k)

  first-none : (xs : List A) → first xs ≡ none → all (λ a. false) xs ≡ true
  first-none [] h = refl
  first-none (a ∷ xs) h = ground arith

  first-some :
      (f : A → Bool) (xs : List A) (a : A) → all f xs ≡ true → first xs ≡ some a → f a ≡ true
  first-some f [] a h e = ground arith
  first-some f (x ∷ xs) a h e = ground arith

not_ahead_lem :
    {C : Type 0} (d c : ProjectConfig C) → not (later_first d c) ≡ true → not_ahead d c ≡ true
unfolding later_first
not_ahead_lem d c h = ground arith

implied : (a b c : Bool) → (b ≡ true → c ≡ true) → (not a || b) ≡ true → (not a || c) ≡ true
implied a b c k h = ground (arith, k)

module _ {C D : Type 0}
    (sort_slice : (ProjectConfig C → ProjectConfig C → Bool)
      → List (ProjectConfig C)
      → List (ProjectConfig C)) where
  picked-IsLatest :
      (wanted : Bytes) (s : ConfigStore C D) (o : Option (ProjectConfig C))
      → Sorts sort_slice
      → first (
          sort_slice later_first
            (keep (λ (c : ProjectConfig C). bytes_eq c.project_id wanted) (values s.data_)))
        ≡ o
      → IsLatest wanted s o
  picked-IsLatest wanted s none sorts h =
      let own : ProjectConfig C → Bool = λ c. bytes_eq c.project_id wanted in
      let kept = keep own (values s.data_) in
      ground (
        arith,
        keep-none own (values s.data_) (
            sym (sorts.keeps later_first kept (λ _. false))
            ∙ first-none (sort_slice later_first kept) h),
      )
  picked-IsLatest wanted s (some c) sorts h =
      let own : ProjectConfig C → Bool = λ d. bytes_eq d.project_id wanted in
      let kept = keep own (values s.data_) in
      (
        first-some own (sort_slice later_first kept) c
            (sorts.keeps later_first kept own ∙ keep-all own (values s.data_)) h,
        all-same (λ (d : ProjectConfig C). not (own d) || not (later_first d c)) _ (values s.data_)
            (λ d. implied (own d) (not (later_first d c)) (not_ahead d c) (not_ahead_lem d c))
            (all-kept (λ (d : ProjectConfig C). not (later_first d c)) own (values s.data_)
              (sorts.heads kept c h)),
      )

  -- Latest returns a configuration of the project it is asked for, of which no stored one of that
  -- project has a higher version, nor the same version and a later time; and it reports none only
  -- where the project's name is blank or no stored configuration is of the project. The library's
  -- sort must keep the elements and put no element behind one that comes after it.
  pub latest-IsLatest :
      (project_id : Bytes) (s : ConfigStore C D)
      → Sorts sort_slice
      → IsLatest (trim_space project_id) s (latest sort_slice project_id s)
  unfolding latest
  latest-IsLatest project_id s sorts = elim (Bool-cases (is_empty (trim_space project_id))) [
    | inl blank ↦ rw (blank, IsLatest) (ground arith)
    | inr named ↦ rw (named, IsLatest) (picked-IsLatest (trim_space project_id) s _ sorts refl)
  ]
