-- ===== src/PvcCopy/Executor/Tests.antt =====
-- Runs of Execute against a transport that succeeds, and against one that does not.
use runner.Prelude.{ℕ, suc, true, false, ◌≡◌, refl, [], ◌∷◌, some, none}
use runner.Prelude.Bytes.{Bytes, codes}
use runner.PvcCopy.Plan.{Plan, PvcRef, marker_for, binding_of}
use runner.PvcCopy.Plan.Tests.{sample_plan}
use runner.PvcCopy.Archive.Tests.{read_two_files, input, same_bytes, receipt}
use runner.PvcCopy.Executor.Types.{Pvc, HelperSpec, Created, Policy}
use runner.PvcCopy.Executor.Cleanup.{IsCleanRun, execute-IsCleanRun}
use runner.PvcCopy.Executor.{Transport, discard, execute}

abbrev policy : Policy
policy = record {
  runner_image = sample_plan.image;
  source_namespaces = codes "base" ∷ codes "prod" ∷ [];
  target = binding_of sample_plan;
}

abbrev sum_json : Plan → Bytes
sum_json p = p.tenant

abbrev volume : PvcRef → Pvc
volume ref = record {
  ref = ref;
  volume_name = ref.uid;
  filesystem = true;
  bound = true;
  deleting = false;
  offline_declared = true;
  pending = false;
}

abbrev made : HelperSpec → Created
made spec = record {
  helper = record {
    namespace = spec.namespace;
    name = spec.name;
    uid = codes "u";
    owner = spec.owner;
    pvc = spec.pvc;
    read_only = spec.read_only;
    image = spec.image;
  };
  failed = false;
}

-- The world counts the helpers that were deleted.
abbrev cluster : Transport ℕ
cluster = record {
  ctx_ok = λ w. true;
  permission = λ p source target w. (true, w);
  get_pvc = λ ref w. (some (volume ref), w);
  list_pods = λ ns w. (some [], w);
  check_controllers = λ ref w. (true, w);
  entropy = λ w. (some (codes "00"), w);
  create_helper = λ spec w. (made spec, w);
  wait_ready = λ h w. (true, w);
  verify = λ h p w. (some none, w);
  export_tree = λ h p w. ((input, true), w);
  pipe = discard;
  import_tree = λ h p w. (some receipt, w);
  complete = λ h p r w. (some (marker_for sum_json p r), w);
  delete_helper = λ h w. (true, suc w);
}

completed_run :
    ((execute same_bytes same_bytes sum_json read_two_files cluster policy sample_plan 0).0
      ≡ some (marker_for sum_json sample_plan receipt))
    × ((execute same_bytes same_bytes sum_json read_two_files cluster policy sample_plan 0).1.world
        ≡ 2)
unfolding execute runner.PvcCopy.Executor.body runner.PvcCopy.Executor.with_cleanup
    runner.Prelude.Action.◌>>=◌ runner.Prelude.Action.pure runner.Prelude.Action.require
    runner.PvcCopy.Executor.confirm runner.PvcCopy.Executor.step runner.PvcCopy.Executor.silent
    runner.PvcCopy.Executor.check runner.PvcCopy.Executor.checkpoint runner.PvcCopy.Executor.create
    runner.PvcCopy.Executor.start_helper runner.PvcCopy.Executor.check_pods
    runner.PvcCopy.Executor.transfer runner.PvcCopy.Executor.read_source
    runner.PvcCopy.Executor.copy runner.PvcCopy.Executor.copy_checked
    runner.PvcCopy.Executor.resume_or_copy runner.PvcCopy.Executor.delete_all discard
    runner.PvcCopy.Executor.Types.policy_check runner.PvcCopy.Executor.Types.source_helper_name
    runner.PvcCopy.Executor.Types.valid_pair runner.PvcCopy.Executor.Types.harmless
    runner.PvcCopy.Executor.Types.no_consumers runner.PvcCopy.Executor.Types.known_helper
    runner.PvcCopy.Executor.Types.exact_helper runner.PvcCopy.Plan.image_ref
    runner.PvcCopy.Plan.binding_eq runner.PvcCopy.Plan.pvc_ref_eq runner.PvcCopy.Plan.receipt_eq
    runner.PvcCopy.Plan.marker_eq runner.PvcCopy.Plan.digest marker_for runner.PvcCopy.Plan.validate
    runner.PvcCopy.Archive.relay runner.PvcCopy.Archive.relay_to runner.PvcCopy.Archive.consume
    runner.PvcCopy.Plan.dns_name runner.Prelude.Bytes.bytes_eq runner.PvcCopy.Archive.Names.dir
    runner.PvcCopy.Archive.Names.valid_path runner.Prelude.Order.bytes_less
    runner.PvcCopy.Archive.clean runner.PvcCopy.Archive.Wire.new_reader
    runner.PvcCopy.Archive.Wire.zeros runner.PvcCopy.Archive.Encoding.hashed
    runner.PvcCopy.Archive.Encoding.hash_header
completed_run = (refl, refl)

-- A target that received something else.
abbrev mismatched : Transport ℕ
mismatched = record cluster { import_tree = λ h p w. (some (record receipt { bytes = 3 }), w) }

mismatch_refused :
    ((execute same_bytes same_bytes sum_json read_two_files mismatched policy sample_plan 0).0
      ≡ none)
    × ((execute same_bytes same_bytes sum_json read_two_files mismatched policy sample_plan
          0).1.world
        ≡ 2)
unfolding execute runner.PvcCopy.Executor.body runner.PvcCopy.Executor.with_cleanup
    runner.Prelude.Action.◌>>=◌ runner.Prelude.Action.pure runner.Prelude.Action.require
    runner.PvcCopy.Executor.confirm runner.PvcCopy.Executor.step runner.PvcCopy.Executor.silent
    runner.PvcCopy.Executor.check runner.PvcCopy.Executor.checkpoint runner.PvcCopy.Executor.create
    runner.PvcCopy.Executor.start_helper runner.PvcCopy.Executor.check_pods
    runner.PvcCopy.Executor.transfer runner.PvcCopy.Executor.read_source
    runner.PvcCopy.Executor.copy runner.PvcCopy.Executor.copy_checked
    runner.PvcCopy.Executor.resume_or_copy runner.PvcCopy.Executor.delete_all discard
    runner.PvcCopy.Executor.Types.policy_check runner.PvcCopy.Executor.Types.source_helper_name
    runner.PvcCopy.Executor.Types.valid_pair runner.PvcCopy.Executor.Types.harmless
    runner.PvcCopy.Executor.Types.no_consumers runner.PvcCopy.Executor.Types.known_helper
    runner.PvcCopy.Executor.Types.exact_helper runner.PvcCopy.Plan.image_ref
    runner.PvcCopy.Plan.binding_eq runner.PvcCopy.Plan.pvc_ref_eq runner.PvcCopy.Plan.receipt_eq
    runner.PvcCopy.Plan.marker_eq runner.PvcCopy.Plan.digest marker_for runner.PvcCopy.Plan.validate
    runner.PvcCopy.Archive.relay runner.PvcCopy.Archive.relay_to runner.PvcCopy.Archive.consume
    runner.PvcCopy.Plan.dns_name runner.Prelude.Bytes.bytes_eq runner.PvcCopy.Archive.Names.dir
    runner.PvcCopy.Archive.Names.valid_path runner.Prelude.Order.bytes_less
    runner.PvcCopy.Archive.clean runner.PvcCopy.Archive.Wire.new_reader
    runner.PvcCopy.Archive.Wire.zeros runner.PvcCopy.Archive.Encoding.hashed
    runner.PvcCopy.Archive.Encoding.hash_header
mismatch_refused = (refl, refl)

execute-IsCleanRun_example :
    IsCleanRun sum_json policy sample_plan
      (execute same_bytes same_bytes sum_json read_two_files cluster policy sample_plan 0).0
      (execute same_bytes same_bytes sum_json read_two_files cluster policy sample_plan 0).1.trace
execute-IsCleanRun_example =
    execute-IsCleanRun same_bytes same_bytes sum_json read_two_files cluster policy sample_plan 0
