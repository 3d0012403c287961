-- ===== src/PvcCopy/Local/Tests.antt =====
-- Volumes at concrete inputs: a payload is the receipt of what was unpacked, none where it is empty.
use runner.Prelude.{Bool, true, false, ◌≡◌, refl, List, [], ◌∷◌, Option, some, none, ◌⊎◌, inr}
use runner.Prelude.Bytes.{Bytes, codes}
use runner.PvcCopy.Plan.{Plan, Receipt, Marker, marker_for, validate}
use runner.PvcCopy.Plan.Tests.{sample_plan, sample_plan_valid}
use runner.PvcCopy.Local.Completed.{IsGuarded, receive-IsGuarded, receive-complete-inspect, quiet}
use runner.PvcCopy.Local.{
  Volume, Disk, Fate, done, refused, torn, receive, complete, inspect, found, failed, nothing,
}

abbrev receipt : Receipt
receipt = record {
  root = record { uid = 0; gid = 0; mode = 493 };
  bytes = 2;
  entries = 3;
  sha256 = codes "ab";
}

abbrev sum_json : Plan → Bytes
sum_json p = p.tenant

abbrev is_empty : Option Receipt → Bool
is_empty none = true
is_empty (some r) = false

abbrev export_tree : Option Receipt → Option Receipt
export_tree payload = payload

abbrev store : Option Receipt → Option Receipt × Option Receipt
store payload = (some receipt, some receipt)

abbrev new_volume : Volume (Option Receipt)
new_volume = record { state = none; payload = none }

abbrev good_disk : Disk (Option Receipt)
good_disk = record { volume = new_volume; fates = [] }

-- The claim file is cut short.
abbrev bad_disk : Disk (Option Receipt)
bad_disk = record { volume = new_volume; fates = done ∷ torn ∷ [] }

looks_empty : inspect sum_json is_empty export_tree sample_plan new_volume ≡ nothing
unfolding inspect validate runner.PvcCopy.Plan.dns_name runner.Prelude.Bytes.bytes_eq
    runner.PvcCopy.Plan.image_ref runner.PvcCopy.Plan.binding_eq runner.PvcCopy.Plan.pvc_ref_eq
looks_empty = refl

received : (receive sum_json is_empty export_tree sample_plan store good_disk).0 ≡ some receipt
unfolding receive runner.Prelude.Action.pure runner.Prelude.Action.require
    runner.Prelude.Action.◌>>=◌ runner.PvcCopy.Local.fill inspect runner.PvcCopy.Local.operate
    runner.PvcCopy.Local.unpack runner.PvcCopy.Local.sync runner.PvcCopy.Local.make_state
    runner.PvcCopy.Local.write_claim runner.PvcCopy.Local.write_received
    runner.PvcCopy.Local.verify_payload runner.PvcCopy.Plan.receipt_eq runner.PvcCopy.Plan.validate
    runner.PvcCopy.Plan.dns_name runner.Prelude.Bytes.bytes_eq runner.PvcCopy.Plan.image_ref
    runner.PvcCopy.Plan.binding_eq runner.PvcCopy.Plan.pvc_ref_eq
received = refl

interrupted :
    inspect sum_json is_empty export_tree sample_plan
      (receive sum_json is_empty export_tree sample_plan store bad_disk).1.volume
    ≡ failed
unfolding receive inspect validate runner.PvcCopy.Plan.dns_name runner.Prelude.Bytes.bytes_eq
    runner.PvcCopy.Plan.image_ref runner.PvcCopy.Plan.binding_eq runner.PvcCopy.Plan.pvc_ref_eq
    runner.Prelude.Action.◌>>=◌ runner.Prelude.Action.require runner.PvcCopy.Local.make_state
    runner.PvcCopy.Local.write_claim
interrupted = refl

receive-IsGuarded_example :
    IsGuarded sum_json is_empty export_tree sample_plan new_volume
      (receive sum_json is_empty export_tree sample_plan store bad_disk)
receive-IsGuarded_example =
    receive-IsGuarded sum_json is_empty export_tree sample_plan store bad_disk

receive-complete-inspect_example :
    ((complete sum_json is_empty export_tree sample_plan receipt
        (quiet (receive sum_json is_empty export_tree sample_plan store good_disk).1.volume)).0
      ≡ some (marker_for sum_json sample_plan receipt))
    × (inspect sum_json is_empty export_tree sample_plan
          (complete sum_json is_empty export_tree sample_plan receipt (
            quiet
              (receive sum_json is_empty export_tree sample_plan store
                good_disk).1.volume)).1.volume
        ≡ found (marker_for sum_json sample_plan receipt))
receive-complete-inspect_example =
    receive-complete-inspect sum_json is_empty export_tree sample_plan store good_disk receipt
      sample_plan_valid received
