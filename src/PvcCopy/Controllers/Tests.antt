-- ===== src/PvcCopy/Controllers/Tests.antt =====
-- Controllers at concrete inputs.
use runner.Prelude.{◌↔◌, Bool, true, false, ◌≡◌, refl, List, [], ◌∷◌, ◌++◌, some, none}
use runner.Prelude.Bytes.{Bytes, codes}
use runner.PvcCopy.Plan.{PvcRef}
use runner.PvcCopy.Controllers.Inside.{IsNamedIn, consumes_iff}
use runner.PvcCopy.Controllers.Fenced.{IsFenced, check_controllers-IsFenced}
use runner.PvcCopy.Controllers.{
  number, text, array, object, no_items, item, Fields, no_fields, field, consumes, spec_of,
  controller_safe, check_controllers, boolean,
}

abbrev claim : PvcRef
claim = record { namespace = codes "prod"; name = codes "data"; uid = codes "s" }

abbrev volume : Fields
volume = field (codes "name") (text (codes "v")) (
    field (codes "persistentVolumeClaim")
      (object (field (codes "claimName") (text (codes "data")) no_fields)) no_fields)

abbrev pod_spec : Fields
pod_spec = field (codes "volumes") (array (item (object volume) no_items)) no_fields

abbrev controller : Bytes → Fields → Fields
controller kind spec = field (codes "kind") (text kind) (
    field (codes "metadata") (object (field (codes "namespace") (text (codes "prod")) no_fields))
      (field (codes "spec") (object spec) no_fields))

abbrev stopped : Fields
stopped =
    controller (codes "Deployment") (
      field (codes "replicas") (number true) (field (codes "template") (object pod_spec) no_fields))

abbrev running : Fields
running = controller (codes "Deployment") pod_spec

abbrev suspended_one : Fields
suspended_one = controller (codes "Job") (field (codes "suspend") (boolean true) pod_spec)

passes : check_controllers claim [] (suspended_one ∷ stopped ∷ []) ≡ true
unfolding check_controllers runner.Prelude.Bytes.bytes_eq
passes = refl

refuses : check_controllers claim [] (running ∷ []) ≡ false
unfolding check_controllers runner.Prelude.Bytes.bytes_eq
refuses = refl

-- A StatefulSet makes the claim data-db-0 of its template data.
abbrev stateful_set : Fields
stateful_set = field (codes "kind") (text (codes "StatefulSet")) (
    field (codes "metadata")
      (object (
        field (codes "namespace") (text (codes "prod"))
          (field (codes "name") (text (codes "db")) no_fields)))
      (field (codes "spec")
        (object (
          field (codes "volumeClaimTemplates")
            (array (
              item
                (object (
                  field (codes "metadata")
                    (object (field (codes "name") (text (codes "data")) no_fields)) no_fields))
                no_items))
            no_fields))
        no_fields))

generated : controller_safe (record claim { name = codes "data-db-0" }) stateful_set ≡ false
unfolding controller_safe runner.Prelude.Bytes.bytes_eq
generated = refl

not_generated : controller_safe (record claim { name = codes "data-db-x" }) stateful_set ≡ true
unfolding controller_safe runner.Prelude.Bytes.bytes_eq
not_generated = refl

consumes_iff_found : consumes (codes "data") (object pod_spec) ≡ true
unfolding consumes runner.Prelude.Bytes.bytes_eq
consumes_iff_found = refl

stopped-IsNamedIn : IsNamedIn (codes "data") (object (spec_of stopped))
unfolding consumes runner.Prelude.Bytes.bytes_eq
stopped-IsNamedIn = (consumes_iff (codes "data") (object (spec_of stopped))).0 refl

consumes_iff_example :
    (consumes (codes "data") (object pod_spec) ≡ true) ↔ IsNamedIn (codes "data") (object pod_spec)
consumes_iff_example = consumes_iff (codes "data") (object pod_spec)

check_controllers-IsFenced_example : IsFenced stopped
check_controllers-IsFenced_example =
    check_controllers-IsFenced claim [] (suspended_one ∷ []) [] stopped passes stopped-IsNamedIn
