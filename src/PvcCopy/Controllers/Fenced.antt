-- ===== src/PvcCopy/Controllers/Fenced.antt =====
-- internal/pvccopy/controllers.go: a list of controllers passes only if those that mention the claim
-- are fenced.
use runner.Prelude.{
  all, length, ◌==◌, Bool, true, false, ◌≡◌, ◌||◌, List, [], ◌∷◌, ◌++◌, Option, refl, some, none,
  Bool-cases, inl, inr, arith, &&_split,
}
use runner.Prelude.Bytes.{Bytes, codes}
use runner.PvcCopy.Plan.{PvcRef}
use runner.PvcCopy.Controllers.{
  Json, null, boolean, number, text, array, object, no_items, item, Fields, get, spec_of, status_of,
  has_kind, uses_claim, fenced, controller_safe, check_controllers, is_true, is_zero_or, no_active,
  scaled_down, suspended_job, suspended_cron_job,
}
use runner.PvcCopy.Controllers.Inside.{IsNamedIn, Inside-consumes}

-- A count that is 0, or missing.
pub data IsNothing : Option Json → Type 0 where
  missing : IsNothing none
  zero_count : IsNothing (some (number true))

-- A list that is empty, or missing.
pub data IsNobody : Option Json → Type 0 where
  missing_list : IsNobody none
  empty_list : IsNobody (some (array no_items))

-- What a controller of each kind has to say for its pods to be gone for good.
pub data IsFenced (obj : Fields) : Type 0 where
  scaled :
      (has_kind "Deployment" obj || has_kind "StatefulSet" obj || has_kind "ReplicaSet" obj) ≡ true
      → get (codes "replicas") (spec_of obj) ≡ some (number true)
      → IsNothing (get (codes "replicas") (status_of obj))
      → IsNothing (get (codes "readyReplicas") (status_of obj))
      → IsFenced obj
  suspended :
      has_kind "Job" obj ≡ true
      → get (codes "suspend") (spec_of obj) ≡ some (boolean true)
      → IsNothing (get (codes "active") (status_of obj))
      → IsFenced obj
  unscheduled :
      has_kind "CronJob" obj ≡ true
      → get (codes "suspend") (spec_of obj) ≡ some (boolean true)
      → IsNobody (get (codes "active") (status_of obj))
      → IsFenced obj

is_zero_or-IsNothing : (v : Option Json) → is_zero_or true v ≡ true → IsNothing v
unfolding is_zero_or
is_zero_or-IsNothing none h = missing
is_zero_or-IsNothing (some (number true)) h = zero_count
is_zero_or-IsNothing (some (number false)) h = cc h
is_zero_or-IsNothing (some null) h = cc h
is_zero_or-IsNothing (some (boolean b)) h = cc h
is_zero_or-IsNothing (some (text s)) h = cc h
is_zero_or-IsNothing (some (array xs)) h = cc h
is_zero_or-IsNothing (some (object fs)) h = cc h

is_zero_or_given : (v : Option Json) → is_zero_or false v ≡ true → v ≡ some (number true)
unfolding is_zero_or
is_zero_or_given none h = cc h
is_zero_or_given (some (number true)) h = refl
is_zero_or_given (some (number false)) h = cc h
is_zero_or_given (some null) h = cc h
is_zero_or_given (some (boolean b)) h = cc h
is_zero_or_given (some (text s)) h = cc h
is_zero_or_given (some (array xs)) h = cc h
is_zero_or_given (some (object fs)) h = cc h

is_true_given : (v : Option Json) → is_true v ≡ true → v ≡ some (boolean true)
unfolding is_true
is_true_given none h = cc h
is_true_given (some (boolean true)) h = refl
is_true_given (some (boolean false)) h = cc h
is_true_given (some null) h = cc h
is_true_given (some (number z)) h = cc h
is_true_given (some (text s)) h = cc h
is_true_given (some (array xs)) h = cc h
is_true_given (some (object fs)) h = cc h

no_active-IsNobody : (v : Option Json) → no_active v ≡ true → IsNobody v
unfolding no_active
no_active-IsNobody none h = missing_list
no_active-IsNobody (some (array no_items)) h = empty_list
no_active-IsNobody (some (array (item v xs))) h = cc h
no_active-IsNobody (some null) h = cc h
no_active-IsNobody (some (boolean b)) h = cc h
no_active-IsNobody (some (number z)) h = cc h
no_active-IsNobody (some (text s)) h = cc h
no_active-IsNobody (some (object fs)) h = cc h

scaled_down-IsFenced :
    (obj : Fields)
    → (has_kind "Deployment" obj || has_kind "StatefulSet" obj || has_kind "ReplicaSet" obj) ≡ true
    → scaled_down obj ≡ true
    → IsFenced obj
unfolding scaled_down
scaled_down-IsFenced obj k h =
    let (ab, c) = &&_split _ _ h in
    let (a, b) = &&_split _ _ ab in
    scaled k (is_zero_or_given _ a) (is_zero_or-IsNothing _ b) (is_zero_or-IsNothing _ c)

suspended_job-IsFenced :
    (obj : Fields) → has_kind "Job" obj ≡ true → suspended_job obj ≡ true → IsFenced obj
unfolding suspended_job
suspended_job-IsFenced obj k h =
    let (a, b) = &&_split _ _ h in suspended k (is_true_given _ a) (is_zero_or-IsNothing _ b)

suspended_cron_job-IsFenced :
    (obj : Fields) → has_kind "CronJob" obj ≡ true → suspended_cron_job obj ≡ true → IsFenced obj
unfolding suspended_cron_job
suspended_cron_job-IsFenced obj k h =
    let (a, b) = &&_split _ _ h in unscheduled k (is_true_given _ a) (no_active-IsNobody _ b)

fenced-IsFenced : (obj : Fields) → fenced obj ≡ true → IsFenced obj
unfolding fenced
fenced-IsFenced obj =
    elim (Bool-cases
      (has_kind "Deployment" obj || has_kind "StatefulSet" obj || has_kind "ReplicaSet" obj)) [
        | inl k ↦ rw k (scaled_down-IsFenced obj k)
        | inr no_scale ↦ rw no_scale (elim (Bool-cases (has_kind "Job" obj)) [
          | inl k ↦ rw k (suspended_job-IsFenced obj k)
          | inr no_job ↦ rw no_job (elim (Bool-cases (has_kind "CronJob" obj)) [
            | inl k ↦ rw k (suspended_cron_job-IsFenced obj k)
            | inr no_cron ↦ rw no_cron (λ h. cc h)
          ])
        ])
      ]

controller_safe-IsFenced :
    (ref : PvcRef) (obj : Fields)
    → controller_safe ref obj ≡ true
    → IsNamedIn ref.name (object (spec_of obj))
    → IsFenced obj
unfolding controller_safe uses_claim
controller_safe-IsFenced ref obj h (w, i, k) =
    let used = Inside-consumes ref.name w (object (spec_of obj)) i k in
    fenced-IsFenced obj (ground (arith, h, used))

all-at :
    (f : Fields → Bool) (before after : List Fields) (obj : Fields)
    → all f (before ++ obj ∷ after) ≡ true
    → f obj ≡ true
all-at f [] after obj h = (&&_split (f obj) (all f after) h).0
all-at f (o ∷ before) after obj h =
    all-at f before after obj (&&_split (f o) (all f (before ++ obj ∷ after)) h).1

-- Where CheckControllers passes, every controller of the list is fenced that names the claim
-- anywhere in its specification.
pub check_controllers-IsFenced :
    (ref : PvcRef) (token : Bytes) (before after : List Fields) (obj : Fields)
    → check_controllers ref token (before ++ obj ∷ after) ≡ true
    → IsNamedIn ref.name (object (spec_of obj))
    → IsFenced obj
unfolding check_controllers
check_controllers-IsFenced ref token before after obj h named =
    controller_safe-IsFenced ref obj
      (all-at (controller_safe ref) before after obj (&&_split (length token == 0) _ h).1) named
