-- ===== src/MysqlCopy/Executor.antt =====
-- internal/mysqlcopy/executor.go: ExecuteDomain against any Transport. What a Transport, an
-- Authority and a context do is unknown: they are functions of a world of any type, which each
-- call may change. The run records its calls, newest first.
pub mod Types
pub mod Stream
mod Protocol
mod Steps
mod Copying
mod Follows
mod Redacted
mod Trusts
mod Tests
use mathlib.Core.List.{Perm}
use runner.Prelude.{
  ℕ, String, Bool, true, false, ◌&&◌, ◌||◌, not, ◌==◌, leb, ltb, str_eq, if◌then◌else◌, List, [],
  ◌∷◌, ◌++◌, Option, none, some, length, any, all,
}
use runner.Prelude.Bytes.{Bytes, codes, bytes_eq}
use runner.MysqlCopy.Plan.{
  Plan, validate, SourceIdentity, TargetIdentity, TableProof, Proof, Receipt, Table,
}
use runner.MysqlCopy.Failure.{
  Stage, Sentinel, unsafe, partial, operation, Error, sentinel, joined, nil, cons, is, safe_failure,
}
use runner.MysqlCopy.Executor.Types.{
  CredentialCheck, same_credentials, distinct_credentials, validate_source, same_identity,
  same_proof, Result, ok, err,
}
use runner.MysqlCopy.Executor.Stream.{Client, Transfer, Dumper, transfer_proof, target_proof}

-- The Transport, with the Authority, the Hold and the context's Err. A Bool is true for a nil
-- error, where the executor looks at no more.
pub record Transport (W : Type 0) : Type 0 where
  pub ctx_err : W → Option Sentinel
  pub authority : Plan → Stage → W → Bool × W
  pub check_credentials : Plan → W → Result CredentialCheck × W
  pub source : Plan → W → Result SourceIdentity × W
  pub hold_ddl : Plan → W → Bool × W
  pub hold_check : W → Bool × W
  pub hold_release : W → Option Error × W
  pub inspect : Plan → W → Result (Option Receipt) × W
  pub provision : Plan → W → Result TargetIdentity × W
  pub transfer : Plan → TargetIdentity → W → Transfer × W
  pub target_dump : Plan → TargetIdentity → W → Dumper × W
  pub shutdown : Plan → TargetIdentity → W → Option Error × W
  pub commit : Plan → Receipt → W → Option Error × W
  pub cleanup : Plan → W → Option Error × W

-- What a run has done; a Bool is whether it succeeded.
pub data Event : Type 0 where
  authorized : Stage → Bool → Event
  credentials_checked source_read hold_taken hold_checked inspected provisioned : Bool → Event
  restored target_matched shut_down : Bool → Event
  committed : Receipt → Bool → Event
  released cleaned : Bool → Event

pub record Run (W : Type 0) : Type 0 where
  pub world : W
  -- The variable `stage` of ExecuteDomain.
  pub stage : Stage
  pub trace : List Event

abbrev pub Action : Type 0 → Type 0 → Type 0
Action W A = Run W → Result A × Run W

module _ {W A : Type 0} where
  pub pure : A → Action W A
  pure a s = (ok a, s)

  pub fail : Sentinel → Action W A
  fail e s = (err (sentinel e), s)

module _ {W A B : Type 0} where
  abbrev pub continue : Result A → (A → Action W B) → Action W B
  continue (ok a) f s = f a s
  continue (err e) f s = (err e, s)

  infixl 10 ◌>>=◌ ◌>>◌
  pub ◌>>=◌ : Action W A → (A → Action W B) → Action W B
  ◌>>=◌ m f s = let (r, s1) = m s in continue r f s1

  abbrev pub ◌>>◌ : Action W A → Action W B → Action W B
  m >> n = m >>= λ _. n

module _ {W : Type 0} where
  pub set_stage : Stage → Action W Unit
  set_stage stage s = (ok tt, record s { stage = stage })

  pub note : Event → Action W Unit
  note event s = (ok tt, record s { trace = event ∷ s.trace })

  -- The executor's `if !b { return Receipt{}, e }`.
  pub require : Bool → Sentinel → Action W Unit
  unfolding pure fail
  require true e = pure tt
  require false e = fail e

-- A call of the world, recorded by what it returned.
pub call : {W A : Type 0} → (W → A × W) → (A → Event) → Action W A
call f event s = let (a, w) = f s.world in (ok a, record s { world = w; trace = event a ∷ s.trace })

abbrev pub is_ok : {A : Type 0} → Result A → Bool
is_ok (ok a) = true
is_ok (err e) = false

abbrev pub is_nil : Option Error → Bool
is_nil none = true
is_nil (some e) = false

-- The sentinel that safeError keeps of an error, if the context has none.
unfoldable pub kept_sentinel : Error → Sentinel
unfolding is
kept_sentinel e = if is unsafe e then unsafe else if is partial e then partial else operation

module _ {W A : Type 0} (t : Transport W) where
  -- safeError(ctx, e), returned.
  pub fail_safely : Error → Action W A
  unfolding fail
  fail_safely e s = elim (t.ctx_err s.world) [ some c ↦ fail c s | none ↦ fail (kept_sentinel e) s ]

  pub or_fail : Result A → Action W A
  unfolding pure
  or_fail (ok a) = pure a
  or_fail (err e) = fail_safely e

module _ {W : Type 0} (t : Transport W) where
  pub nil_or_fail : Option Error → Action W Unit
  unfolding pure
  nil_or_fail none = pure tt
  nil_or_fail (some e) = fail_safely t e

module _ {W : Type 0} (t : Transport W) (p : Plan) where
  -- DomainExecutor.gate
  pub gate : Stage → Action W Unit
  unfolding fail
  gate stage s = elim (t.ctx_err s.world) [
    | some c ↦ fail c s
    | none ↦ (do allowed ← call (t.authority p stage) (authorized stage); require allowed unsafe) s
  ]

  pub fetch_credentials : Action W CredentialCheck
  fetch_credentials = do
    reply ← call (t.check_credentials p) (λ r. credentials_checked (is_ok r))
    or_fail t reply

  pub fetch_source : Action W SourceIdentity
  fetch_source = do reply ← call (t.source p) (λ r. source_read (is_ok r)); or_fail t reply

  -- The closure `check` of ExecuteDomain.
  pub check : CredentialCheck → SourceIdentity → Stage → Action W Unit
  check credentials source stage = do
    gate stage
    held ← call t.hold_check hold_checked
    require held unsafe
    fresh ← fetch_credentials
    require (same_credentials fresh credentials) unsafe
    fresh_source ← fetch_source
    require (validate_source p fresh_source && same_identity source fresh_source) unsafe

-- The comparison of a receipt found on the target with the plan and the source.
unfoldable pub receipt_matches : Plan → String → SourceIdentity → Receipt → Bool
receipt_matches p digest source r =
    r.version == 1
    && str_eq r.plan_digest digest
    && str_eq r.binding p.binding
    && str_eq r.source_pvc_uid p.source.pvc.uid
    && str_eq r.source_stateful_set_uid p.source.stateful_set.uid
    && str_eq r.source_server_uuid source.server_uuid
    && r.shutdown_verified

-- The checks on the provisioned target.
unfoldable pub valid_target : Plan → TargetIdentity → Bool
valid_target p target =
    not (str_eq target.pvc_uid "")
    && not (str_eq target.pod_uid "")
    && str_eq target.secret_uid p.target.credentials.ref.uid
    && not (str_eq target.pvc_uid p.source.pvc.uid)

abbrev pub new_receipt : Plan → String → SourceIdentity → TargetIdentity → Proof → Receipt
new_receipt p digest source target proof = record {
  version = 1;
  plan_digest = digest;
  binding = p.binding;
  source_pvc_uid = p.source.pvc.uid;
  source_stateful_set_uid = p.source.stateful_set.uid;
  source_server_uuid = source.server_uuid;
  target = target;
  proof = proof;
  shutdown_verified = true;
}

abbrev pub is_some {ℓ} : {A : Type ℓ} → Option A → Bool
is_some none = false
is_some (some a) = true

module _ {W : Type 0} (t : Transport W) (sha256 : Bytes → Bytes) (p : Plan) where
  pub some_proof : Option Proof → Action W Proof
  unfolding pure fail
  some_proof none = fail unsafe
  some_proof (some proof) = pure proof

  -- The transfer, from the pipe to the proof of the stream.
  pub transfer_stream : SourceIdentity → TargetIdentity → Action W Proof
  transfer_stream source target = do
    x ← call (t.transfer p target) (λ x. restored (is_some (transfer_proof sha256 p source x).1))
    let proof = transfer_proof sha256 p source x
    if proof.0 then pure tt else fail_safely t (sentinel operation)
    some_proof proof.1

  abbrev pub matches_proof : Proof → Option Error × Option Proof → Bool
  matches_proof proof (some e, actual) = false
  matches_proof proof (none, none) = false
  matches_proof proof (none, some actual) = same_proof proof actual

  -- TargetDump into a new tracker, and the comparison with the stream's proof.
  pub verify_target : TargetIdentity → Proof → Action W Unit
  verify_target target proof = do
    d ←
        call (t.target_dump p target)
          (λ d. target_matched (matches_proof proof (target_proof sha256 p d)))
    nil_or_fail t (target_proof sha256 p d).0
    require (matches_proof proof (target_proof sha256 p d)) unsafe

  -- The rest of ExecuteDomain where Inspect has found no receipt.
  pub copy : String → CredentialCheck → SourceIdentity → Action W Receipt
  copy digest credentials source = do
    set_stage "provision_target"
    reply ← call (t.provision p) (λ r. provisioned (is_ok r))
    target ← or_fail t reply
    require (valid_target p target) unsafe
    set_stage "transfer"
    check t p credentials source "transfer"
    proof ← transfer_stream source target
    set_stage "verify"
    check t p credentials source "verify"
    verify_target target proof
    set_stage "complete"
    check t p credentials source "complete"
    set_stage "shutdown_target"
    stopped ← call (t.shutdown p target) (λ e. shut_down (is_nil e))
    nil_or_fail t stopped
    set_stage "complete"
    check t p credentials source "complete"
    let result = new_receipt p digest source target proof
    set_stage "commit_receipt"
    written ← call (t.commit p result) (λ e. committed result (is_nil e))
    nil_or_fail t written
    pure result

  -- The rest where it has found one.
  pub resume : String → CredentialCheck → SourceIdentity → Receipt → Action W Receipt
  resume digest credentials source existing = do
    require (receipt_matches p digest source existing) partial
    set_stage "complete"
    check t p credentials source "complete"
    pure existing

  pub inspected_or_partial : Result (Option Receipt) → Action W (Option Receipt)
  unfolding pure fail
  inspected_or_partial (ok existing) = pure existing
  inspected_or_partial (err e) = fail partial

  pub resume_or_copy : String → CredentialCheck → SourceIdentity → Option Receipt → Action W Receipt
  unfolding resume copy
  resume_or_copy digest credentials source none = copy digest credentials source
  resume_or_copy digest credentials source (some existing) =
      resume digest credentials source existing

  -- What runs while the DDL hold is kept.
  pub held_body : String → CredentialCheck → SourceIdentity → Action W Receipt
  held_body digest credentials source = do
    set_stage "provision_target"
    check t p credentials source "provision_target"
    set_stage "inspect_target"
    reply ← call (t.inspect p) (λ r. inspected (is_ok r))
    existing ← inspected_or_partial reply
    resume_or_copy digest credentials source existing

-- safeFailure of an error or nil, in front of the failure of a deferred call.
abbrev pub join_failure : Stage → Result Receipt → Stage → Error → Error
join_failure stage (ok r) deferred e = joined (cons (safe_failure deferred e) nil)
join_failure stage (err primary) deferred e =
    joined (cons (safe_failure stage primary) (cons (safe_failure deferred e) nil))

-- A deferred call, on what the function was about to return.
abbrev pub after_deferred :
    {W : Type 0} → Stage → Result Receipt × Run W → Option Error → Result Receipt × Run W
after_deferred deferred (r, s) none = (r, s)
after_deferred deferred (r, s) (some e) = (err (join_failure s.stage r deferred e), s)

module _ {W : Type 0} (t : Transport W) where
  pub with_release : Action W Receipt → Action W Receipt
  with_release m s =
      let (r, s1) = m s in
      let (e, w) = t.hold_release s1.world in
      after_deferred "release_ddl"
        (r, record s1 { world = w; trace = released (is_nil e) ∷ s1.trace }) e

module _ {W : Type 0} (t : Transport W) (p : Plan) where
  pub with_cleanup : Action W Receipt → Action W Receipt
  with_cleanup m s =
      let (r, s1) = m s in
      let (e, w) = t.cleanup p s1.world in
      after_deferred "cleanup_helpers"
        (r, record s1 { world = w; trace = cleaned (is_nil e) ∷ s1.trace }) e

module _ {W : Type 0} (t : Transport W) (sha256 : Bytes → Bytes) (p : Plan) where
  -- What runs between the registration of Cleanup and its call.
  pub body : String → Action W Receipt
  body digest = do
    set_stage "read_source"
    gate t p "read_source"
    set_stage "check_credentials"
    credentials ← fetch_credentials t p
    require (distinct_credentials p credentials) unsafe
    set_stage "read_source"
    source ← fetch_source t p
    require (validate_source p source) unsafe
    set_stage "hold_ddl"
    gate t p "hold_ddl"
    taken ← call (t.hold_ddl p) hold_taken
    require taken unsafe
    with_release t (held_body t sha256 p digest credentials source)

abbrev redact_result : {W : Type 0} → Result Receipt × Run W → Result Receipt × Run W
redact_result (ok r, s) = (ok r, s)
redact_result (err e, s) = (err (safe_failure s.stage e), s)

module _ {W : Type 0} (t : Transport W) (sha256 : Bytes → Bytes) (p : Plan) where
  -- ExecuteDomain, with a Transport and an Authority that are not nil; `digest` is p.Digest().
  pub execute_domain : String → W → Result Receipt × Run W
  execute_domain digest w =
      let start : Run W = record { world = w; stage = "validate_plan"; trace = [] } in
      if validate p
      then redact_result (with_cleanup t p (body t sha256 p digest) start)
      else redact_result (fail unsafe start)
