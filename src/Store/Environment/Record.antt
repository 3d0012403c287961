-- ===== src/Store/Environment/Record.antt =====
-- environment_record.go, and load of store.go: what an entry of the file stands for.
use runner.Prelude.{ℕ, [], ◌∷◌, ◌≡◌, refl, arith, inl, inr, ◌⊎◌}
use runner.Prelude.Bytes.{Bytes}
use runner.Store.Environment.{Environment, or_text, or_number, new_environment_record, environment}

or_text_same : (s : Bytes) → or_text s s ≡ s
unfolding or_text
or_text_same [] = refl
or_text_same (b ∷ bs) = refl

or_number_same : (n : ℕ) → or_number n n ≡ n
unfolding or_number
or_number_same n = ground arith

or_text_left : (s : Bytes) → or_text s [] ≡ s
unfolding or_text
or_text_left [] = refl
or_text_left (b ∷ bs) = refl

-- A field that the file has, or that it lacks.
abbrev pub IsField : Bytes → Bytes → Type 0
IsField part whole_ = (part ≡ whole_) ⊎ (part ≡ [])

abbrev pub IsNumberField : ℕ → ℕ → Type 0
IsNumberField part whole_ = (part ≡ whole_) ⊎ (part ≡ 0)

-- An environment that lacks some of another's fields, of those that a record repeats.
pub record IsPart {R : Type 0} (p e : Environment R) : Type 0 where
  pub id : IsField p.id e.id
  pub tenant_id : IsField p.tenant_id e.tenant_id
  pub project : IsField p.project e.project
  pub pull_request_id : IsField p.pull_request_id e.pull_request_id
  pub branch : IsField p.branch e.branch
  pub commit : IsField p.commit e.commit
  pub status : IsField p.status e.status
  pub mode : IsField p.mode e.mode
  pub ttl_hours : IsNumberField p.ttl_hours e.ttl_hours
  pub created_at : IsNumberField p.created_at e.created_at
  pub updated_at : IsNumberField p.updated_at e.updated_at
  pub rest : p.rest ≡ e.rest

or_text-IsField : (part whole_ : Bytes) → IsField part whole_ → or_text part whole_ ≡ whole_
unfolding or_text
or_text-IsField part whole_ (inl same) = rw same (or_text_same whole_)
or_text-IsField part whole_ (inr missing) = rw missing refl

or_number-IsNumberField :
    (part whole_ : ℕ) → IsNumberField part whole_ → or_number part whole_ ≡ whole_
unfolding or_number
or_number-IsNumberField part whole_ (inl same) = rw same (or_number_same whole_)
or_number-IsNumberField part whole_ (inr missing) = rw missing refl

-- The columns of a record make up for the fields that its payload lacks.
environment-IsPart :
    {R : Type 0} (e p : Environment R)
    → IsPart p e
    → environment (record (new_environment_record e) { payload = p }) ≡ e
unfolding environment new_environment_record
environment-IsPart e p h =
    rw
      (
        or_text-IsField p.id e.id h.id,
        or_text-IsField p.tenant_id e.tenant_id h.tenant_id,
        or_text-IsField p.project e.project h.project,
        or_text-IsField p.pull_request_id e.pull_request_id h.pull_request_id,
        or_text-IsField p.branch e.branch h.branch,
        or_text-IsField p.commit e.commit h.commit,
        or_text-IsField p.status e.status h.status,
        or_text-IsField p.mode e.mode h.mode,
        or_number-IsNumberField p.ttl_hours e.ttl_hours h.ttl_hours,
        or_number-IsNumberField p.created_at e.created_at h.created_at,
        or_number-IsNumberField p.updated_at e.updated_at h.updated_at,
        h.rest,
      )
      refl

whole-IsPart : {R : Type 0} (e : Environment R) → IsPart e e
whole-IsPart e = record {
  id = inl refl;
  tenant_id = inl refl;
  project = inl refl;
  pull_request_id = inl refl;
  branch = inl refl;
  commit = inl refl;
  status = inl refl;
  mode = inl refl;
  ttl_hours = inl refl;
  created_at = inl refl;
  updated_at = inl refl;
  rest = refl;
}

pub environment-new_environment_record :
    {R : Type 0} (e : Environment R) → environment (new_environment_record e) ≡ e
unfolding new_environment_record
environment-new_environment_record e = environment-IsPart e e (whole-IsPart e)
