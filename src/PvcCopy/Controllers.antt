-- ===== src/PvcCopy/Controllers.antt =====
-- internal/pvccopy/controllers.go: which controllers of a namespace use a claim, and whether those
-- are fenced. The list that kubectl returns is an argument.
mod Inside
mod Fenced
mod Tests
use runner.Prelude.{
  ℕ, ◌+◌, ◌*◌, ◌-◌, ◌^◌, String, Bool, true, false, ◌&&◌, ◌||◌, not, List, [], ◌∷◌, ◌++◌, Option,
  none, some, leb, ltb, ◌==◌, if◌then◌else◌, all, length,
}
use runner.Prelude.Bytes.{Bytes, codes, bytes_eq, cut_prefix}
use runner.Prelude.Regex.{is_digit}
use runner.PvcCopy.Plan.{PvcRef}

-- A decoded JSON value. Of a number only whether it is 0 is looked at.
mutual
  pub data Json : Type 0 where
    null : Json
    boolean : Bool → Json
    number : Bool → Json
    text : Bytes → Json
    array : Items → Json
    object : Fields → Json

  pub data Items : Type 0 where
    no_items : Items
    item : Json → Items → Items

  -- map[string]any, in the order of a walk
  pub data Fields : Type 0 where
    no_fields : Fields
    field : Bytes → Json → Fields → Fields

-- m[key], none where it does not exist
unfoldable pub get : Bytes → Fields → Option Json
get key no_fields = none
get key (field k v fs) = if bytes_eq k key then some v else get key fs

-- v, _ := x.(map[string]any), of a value that may be missing
unfoldable pub as_object : Option Json → Fields
as_object (some (object fs)) = fs
as_object _ = no_fields

unfoldable pub as_text : Option Json → Bytes
as_text (some (text s)) = s
as_text _ = []

unfoldable pub as_array : Option Json → Items
as_array (some (array xs)) = xs
as_array _ = no_items

-- x == s
unfoldable pub is_text : Bytes → Option Json → Bool
is_text s (some (text t)) = bytes_eq t s
is_text s _ = false

unfoldable pub is_true : Option Json → Bool
is_true (some (boolean b)) = b
is_true _ = false

-- The fields name the claim themselves.
unfoldable pub names_claim : Bytes → Fields → Bool
unfolding get as_object is_text
names_claim claim fs =
    is_text claim (get (codes "claimName") (as_object (get (codes "persistentVolumeClaim") fs)))

unfoldable mutual
  unfolding names_claim

  pub consumes : Bytes → Json → Bool
  consumes claim null = false
  consumes claim (boolean b) = false
  consumes claim (number z) = false
  consumes claim (text s) = false
  consumes claim (array xs) = consumes_items claim xs
  consumes claim (object fs) = names_claim claim fs || consumes_fields claim fs

  pub consumes_items : Bytes → Items → Bool
  consumes_items claim no_items = false
  consumes_items claim (item v xs) = consumes claim v || consumes_items claim xs

  pub consumes_fields : Bytes → Fields → Bool
  consumes_fields claim no_fields = false
  consumes_fields claim (field k v fs) = consumes claim v || consumes_fields claim fs

-- strconv.ParseUint in base 10, with n the value of the digits read: none for an error.
unfoldable pub digits_from : ℕ → Bytes → Option ℕ
digits_from n [] = some n
digits_from n (c ∷ s) = if is_digit c then digits_from (n * 10 + (c - 48)) s else none

unfoldable pub parse_uint32 : Bytes → Option ℕ
unfolding digits_from
parse_uint32 [] = none
parse_uint32 (c ∷ s) = elim (digits_from 0 (c ∷ s)) [
  | none ↦ none
  | some n ↦ if ltb n (2 ^ 32) then some n else none
]

unfoldable pub is_ordinal : Option Bytes → Bool
unfolding parse_uint32
is_ordinal none = false
is_ordinal (some s) = elim (parse_uint32 s) [ none ↦ false | some n ↦ leb n (2 ^ 31) ]

-- A claim template of a StatefulSet generates the claim.
unfoldable pub generates : Bytes → Fields → Json → Bool
unfolding get as_object as_text is_ordinal cut_prefix
generates claim meta template =
    let name =
      as_text
        (get (codes "name") (as_object (get (codes "metadata") (as_object (some template))))) in
    let controller = as_text (get (codes "name") meta) in
    not (length name == 0)
    && not (length controller == 0)
    && is_ordinal (cut_prefix (name ++ codes "-" ++ controller ++ codes "-") claim)

unfoldable pub any_generates : Bytes → Fields → Items → Bool
unfolding generates
any_generates claim meta no_items = false
any_generates claim meta (item v xs) = generates claim meta v || any_generates claim meta xs

abbrev pub metadata_of : Fields → Fields
metadata_of obj = as_object (get (codes "metadata") obj)

abbrev pub spec_of : Fields → Fields
spec_of obj = as_object (get (codes "spec") obj)

abbrev pub status_of : Fields → Fields
status_of obj = as_object (get (codes "status") obj)

abbrev pub has_kind : String → Fields → Bool
has_kind kind obj = is_text (codes kind) (get (codes "kind") obj)

-- The variable `uses` of controllerSafe.
unfoldable pub uses_claim : Fields → Bytes → Bool
unfolding consumes any_generates as_array
uses_claim obj claim =
    consumes claim (object (spec_of obj))
    || has_kind "StatefulSet" obj
      && any_generates claim (metadata_of obj)
          (as_array (get (codes "volumeClaimTemplates") (spec_of obj)))

-- zero, of m[key]; `absent` is whether the default value is 0.
unfoldable pub is_zero_or : Bool → Option Json → Bool
is_zero_or absent none = absent
is_zero_or absent (some (number z)) = z
is_zero_or absent (some _) = false

-- len(active) == 0, and no value of another type
unfoldable pub no_active : Option Json → Bool
no_active none = true
no_active (some (array no_items)) = true
no_active (some _) = false

unfoldable pub scaled_down : Fields → Bool
unfolding get is_zero_or
scaled_down obj =
    is_zero_or false (get (codes "replicas") (spec_of obj))
    && is_zero_or true (get (codes "replicas") (status_of obj))
    && is_zero_or true (get (codes "readyReplicas") (status_of obj))

unfoldable pub suspended_job : Fields → Bool
unfolding get is_zero_or is_true
suspended_job obj =
    is_true (get (codes "suspend") (spec_of obj))
    && is_zero_or true (get (codes "active") (status_of obj))

unfoldable pub suspended_cron_job : Fields → Bool
unfolding get no_active is_true
suspended_cron_job obj =
    is_true (get (codes "suspend") (spec_of obj))
    && no_active (get (codes "active") (status_of obj))

-- The switch on the kind.
unfoldable pub fenced : Fields → Bool
unfolding scaled_down suspended_job suspended_cron_job is_text
fenced obj =
    if has_kind "Deployment" obj || has_kind "StatefulSet" obj || has_kind "ReplicaSet" obj
    then scaled_down obj
    else if has_kind "Job" obj
    then suspended_job obj
    else if has_kind "CronJob" obj
    then suspended_cron_job obj
    else false

-- controllerSafe: `true` for a nil error.
unfoldable pub controller_safe : PvcRef → Fields → Bool
unfolding uses_claim fenced
controller_safe ref obj =
    is_text ref.namespace (get (codes "namespace") (metadata_of obj))
    && (not (uses_claim obj ref.name) || fenced obj)

-- CheckControllers, of the list's items and its continue token.
unfoldable pub check_controllers : PvcRef → Bytes → List Fields → Bool
unfolding controller_safe
check_controllers ref continue_token items =
    length continue_token == 0 && all (controller_safe ref) items
