-- ===== src/MysqlCopy/Stream/Tests.antt =====
-- A small dump through the tracker, and the witnesses of its theorems.
use runner.Prelude.{true, false, [], ◌∷◌, ◌++◌, some, ◌≡◌, refl}
use runner.Prelude.Bytes.{Bytes, codes, contains, to_upper, trim_space, bytes_eq}
use runner.MysqlCopy.Plan.{Plan, Ref, CredentialRef, Source, Target, Proof}
use runner.MysqlCopy.Schema.{normalize_schema}
use runner.MysqlCopy.Stream.{
  Tracker, new_tracker, statement, has_forbidden, engine_allowed, write_byte, write, sort_tables,
  finish,
}
use runner.MysqlCopy.Stream.Chunks.{accepted, write_next, write-append}
use runner.MysqlCopy.Stream.Tracking.{IsSoundTracker, new_tracker-IsSound, write-IsSoundTracker}
use runner.MysqlCopy.Stream.Split.{IsSplit, new_tracker-IsBetween, write-IsSplit}
use runner.MysqlCopy.Stream.Finish.{IsReport, finish-IsReport}

abbrev no_ref : Ref
no_ref = record { namespace = ""; name = ""; uid = "" }

abbrev no_credentials : CredentialRef
no_credentials = record { ref = no_ref; username = ""; username_key = ""; password_key = "" }

abbrev no_source : Source
no_source = record {
  pvc = no_ref;
  stateful_set = no_ref;
  container = "";
  image = "";
  service = "";
  service_uid = "";
  database = "";
  port = 0;
  credentials = no_credentials;
  backup_admin_secret_ref = no_credentials;
  tls_ca_secret = no_ref;
  tls_ca_key = "";
  tls_server_name = "";
}

abbrev no_target : Target
no_target = record {
  namespace = "";
  pvc_name = "";
  storage_class = "";
  image = "";
  database = "";
  root_password_key = "";
  requested_bytes = 0;
  credentials = no_credentials;
}

-- A plan of which only the bounds and the mode matter here.
abbrev pub small_plan : Plan
small_plan = record {
  binding = "";
  tenant = "";
  project = "";
  environment = "";
  environment_created_at = 0;
  domain_plan_digest = "";
  secret_materialization_plan_digest = "";
  source = no_source;
  target = no_target;
  config_image = "";
  ddl_mode = "backup_lock";
  quiescence_ref = "";
  max_bytes = 1000;
  max_statement_bytes = 100;
  max_tables = 2;
  max_rows = 3;
  timeout = 1;
}

-- A digest that is the text itself.
abbrev pub plain : Bytes → Bytes
plain b = b

abbrev pub dump : Bytes
dump =
    codes "CREATE TABLE `t` (`a` int) ENGINE=InnoDB AUTO_INCREMENT=3;"
    ++ codes "INSERT INTO `t` VALUES (1,';)');"

abbrev after : Tracker
after = (write plain small_plan dump new_tracker).1

dump_accepted : write plain small_plan dump new_tracker ≡ (true, after)
unfolding write write_byte statement has_forbidden engine_allowed to_upper contains trim_space
    bytes_eq normalize_schema
dump_accepted = refl

-- The semicolon and the parenthesis inside the literal end nothing.
dump_rows : after.ledger.rows ≡ 1
unfolding write write_byte statement has_forbidden engine_allowed to_upper contains trim_space
    bytes_eq normalize_schema
dump_rows = refl

second_create_refused :
    (write plain small_plan
      (dump ++ codes "CREATE TABLE `t` (`b` int) ENGINE=InnoDB;")
      new_tracker).0
    ≡ false
unfolding write write_byte statement has_forbidden engine_allowed to_upper contains trim_space
    bytes_eq normalize_schema
second_create_refused = refl

write-append_example :
    accepted (write plain small_plan (codes "CREATE" ++ codes " TABLE") new_tracker)
    ≡ write_next plain small_plan
        (codes " TABLE")
        (accepted (write plain small_plan (codes "CREATE") new_tracker))
write-append_example = write-append plain small_plan (codes "CREATE") (codes " TABLE") new_tracker

write-IsSoundTracker_example : IsSoundTracker small_plan after
write-IsSoundTracker_example =
    write-IsSoundTracker plain small_plan dump new_tracker (new_tracker-IsSound small_plan)

write-IsSplit_example : IsSplit plain small_plan dump new_tracker after
write-IsSplit_example =
    write-IsSplit plain small_plan dump new_tracker after new_tracker-IsBetween dump_accepted

abbrev two_tables : Tracker
two_tables = record new_tracker {
  pending = 10 ∷ [];
  ledger = record {
    tables =
        record { name = codes "b"; schema = []; rows = 2; hashed = codes "x" }
        ∷ record { name = codes "a"; schema = []; rows = 1; hashed = codes "y" }
        ∷ [];
    rows = 3;
  };
}

abbrev two_proofs : Proof
two_proofs = record {
  bytes = 0;
  sha256 = [];
  tables =
      record { name = codes "a"; rows = 1; schema_sha256 = []; rows_sha256 = codes "y" }
      ∷ record { name = codes "b"; rows = 2; schema_sha256 = []; rows_sha256 = codes "x" }
      ∷ [];
}

two_finished : finish plain two_tables ≡ some two_proofs
unfolding finish sort_tables trim_space bytes_eq
two_finished = refl

finish-IsReport_example : IsReport plain two_tables two_proofs
finish-IsReport_example = finish-IsReport plain two_tables two_proofs two_finished
