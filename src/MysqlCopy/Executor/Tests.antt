-- ===== src/MysqlCopy/Executor/Tests.antt =====
-- A run of ExecuteDomain that finds a receipt, one that is refused, and the witnesses.
use runner.Prelude.{true, false, String, [], ◌∷◌, Option, none, some, ◌≡◌, refl, ◌⊎◌}
use runner.Prelude.Bytes.{Bytes, len}
use runner.MysqlCopy.Plan.{
  Plan, Ref, CredentialRef, validate, SourceIdentity, TargetIdentity, Receipt,
}
use runner.MysqlCopy.Failure.{Error, foreign}
use runner.MysqlCopy.Executor.Types.{CredentialCheck, ok}
use runner.MysqlCopy.Executor.Stream.{Client, Dumper}
use runner.MysqlCopy.Executor.{Transport, execute_domain}
use runner.MysqlCopy.Executor.Protocol.{over, phase_of}
use runner.MysqlCopy.Executor.Trusts.{RedactedResult}
use runner.MysqlCopy.Executor.Redacted.{execute_domain-RedactedResult}
use runner.MysqlCopy.Executor.Follows.{execute_domain-follows}

abbrev ref : String → String → Ref
ref namespace name = record { namespace = namespace; name = name; uid = "uid-1" }

abbrev credentials : String → String → String → CredentialRef
credentials namespace name username = record {
  ref = ref namespace name;
  username = username;
  username_key = "";
  password_key = "password";
}

abbrev some_image : String
some_image = "mysql@sha256:0123456789abcdef0123456789abcdef0123456789abcdef0123456789abcdef"

abbrev some_digest : String
some_digest = "sha256:0123456789abcdef0123456789abcdef0123456789abcdef0123456789abcdef"

abbrev valid_plan : Plan
valid_plan = record {
  binding = "binding";
  tenant = "tenant";
  project = "project";
  environment = "pr-1";
  environment_created_at = 1;
  domain_plan_digest = some_digest;
  secret_materialization_plan_digest = some_digest;
  source = record {
    pvc = ref "prod" "data";
    stateful_set = ref "prod" "mysql";
    container = "mysql";
    image = some_image;
    service = "mysql";
    service_uid = "uid-2";
    database = "shop";
    port = 3306;
    credentials = credentials "prod" "reader" "reader";
    backup_admin_secret_ref = credentials "prod" "backup" "backup";
    tls_ca_secret = ref "prod" "ca";
    tls_ca_key = "ca.crt";
    tls_server_name = "mysql.prod.svc";
  };
  target = record {
    namespace = "preview";
    pvc_name = "data";
    storage_class = "fast";
    image = some_image;
    database = "shop";
    root_password_key = "root";
    requested_bytes = 2000;
    credentials = credentials "preview" "writer" "writer";
  };
  config_image = some_image;
  ddl_mode = "backup_lock";
  quiescence_ref = "";
  max_bytes = 1000;
  max_statement_bytes = 2048;
  max_tables = 2;
  max_rows = 3;
  timeout = 1;
}

plan_valid : validate valid_plan ≡ true
unfolding validate runner.Prelude.Bytes.len
plan_valid = refl

abbrev one_source : SourceIdentity
one_source = record {
  pod_uid = "pod";
  server_uuid = "server";
  version = "8.0.36";
  tables = record { name = "t"; engine = "InnoDB"; primary_key = true } ∷ [];
}

abbrev one_check : CredentialCheck
one_check = record {
  source = 1 ∷ [];
  target = 2 ∷ [];
  target_root = 3 ∷ [];
  backup = 4 ∷ [];
  ca = 5 ∷ [];
  principals = [];
}

abbrev one_target : TargetIdentity
one_target = record { pvc_uid = "pvc-2"; pod_uid = "pod-2"; secret_uid = "uid-1" }

abbrev one_receipt : Receipt
one_receipt = record {
  version = 1;
  plan_digest = "digest";
  binding = "binding";
  source_pvc_uid = "uid-1";
  source_stateful_set_uid = "uid-1";
  source_server_uuid = "server";
  target = one_target;
  proof = record { bytes = 0; sha256 = []; tables = [] };
  shutdown_verified = true;
}

-- A transport that always finds the receipt given, and whose cleanup fails if told to.
abbrev transport : Option Receipt → Option Error → Transport Unit
transport found cleanup = record {
  ctx_err = λ w. none;
  authority = λ p stage w. (true, w);
  check_credentials = λ p w. (ok one_check, w);
  source = λ p w. (ok one_source, w);
  hold_ddl = λ p w. (true, w);
  hold_check = λ w. (true, w);
  hold_release = λ w. (none, w);
  inspect = λ p w. (ok found, w);
  provision = λ p w. (ok one_target, w);
  transfer = λ p target w. (
    record { stream = []; breaks = false; dump_failed = false; restore = Client.returns none },
    w,
  );
  target_dump = λ p target w. (Dumper.returns none, w);
  shutdown = λ p target w. (none, w);
  commit = λ p r w. (none, w);
  cleanup = λ p w. (cleanup, w);
}

abbrev plain : Bytes → Bytes
plain b = b

execute_domain-follows_example :
    ((validate valid_plan ≡ true)
      × (phase_of
            (execute_domain
              (transport (some one_receipt) none)
              plain
              valid_plan
              "digest"
              tt).1.trace
          ≡ some over))
    ⊎ ((validate valid_plan ≡ false)
        × ((execute_domain (transport (some one_receipt) none) plain valid_plan "digest" tt).1.trace
            ≡ []))
execute_domain-follows_example =
    execute_domain-follows (transport (some one_receipt) none) plain valid_plan "digest" tt

-- The cleanup fails with a text of its own.
execute_domain-RedactedResult_example :
    RedactedResult
      (execute_domain
        (transport (some one_receipt) (some (foreign "password")))
        plain
        valid_plan
        "digest"
        tt).0
execute_domain-RedactedResult_example =
    execute_domain-RedactedResult (transport (some one_receipt) (some (foreign "password"))) plain
      valid_plan "digest" tt (λ x. tt) (λ x. tt)

-- Lengths are counted in bytes.
bytes_of_text : len "é€a" ≡ 6
unfolding len
bytes_of_text = refl
