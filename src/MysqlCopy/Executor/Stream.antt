-- ===== src/MysqlCopy/Executor/Stream.antt =====
-- internal/mysqlcopy/executor.go: the transfer, in which Dump writes a pipe that Restore reads
-- through validatedSQLReader, and the dump of the target into a second tracker. Both sides of the
-- transport are unknown: a client that chooses its next call by what the last one returned.
use runner.Prelude.{
  ℕ, Bool, true, false, ◌&&◌, not, if◌then◌else◌, Option, none, some, length, any, all, ◌==◌,
}
use runner.Prelude.Bytes.{Bytes, codes, bytes_eq}
use runner.MysqlCopy.Plan.{Plan, SourceIdentity, Table, TableProof, Proof}
use runner.MysqlCopy.Failure.{Error}
use runner.MysqlCopy.Stream.{Tracker, new_tracker, write, finish}
use runner.MysqlCopy.Reader.{Reader, Status, exhausted, read}
use runner.MysqlCopy.Reader.Forward.{validate_reader}

-- Restore: it returns (none is nil), or reads into a buffer of some size and goes on.
pub data Client : Type 0 where
  returns : Option Error → Client
  reads : ℕ → (Bytes → Status → Client) → Client

-- One transfer: what Dump writes to the pipe, whether the pipe ends in an error, whether Dump
-- returned one, and Restore.
pub record Transfer : Type 0 where
  pub stream : Bytes
  pub breaks : Bool
  pub dump_failed : Bool
  pub restore : Client

-- TargetDump: it returns, or writes to the tracker and goes on by whether that succeeded.
pub data Dumper : Type 0 where
  returns : Option Error → Dumper
  writes : Bytes → (Bool → Dumper) → Dumper

abbrev is_nil : Option Error → Bool
is_nil none = true
is_nil (some e) = false

module _ (sha256 : Bytes → Bytes) (p : Plan) where
  unfoldable pub run_client : Client → Reader → Option Error × Reader
  run_client (Client.returns e) v = (e, v)
  run_client (reads n next) v =
      let o = read sha256 p n v in run_client (next o.output o.status) o.next

  unfoldable pub run_dumper : Dumper → Tracker → Option Error × Tracker
  run_dumper (Dumper.returns e) t = (e, t)
  run_dumper (writes b next) t = let r = write sha256 p b t in run_dumper (next r.0) r.1

  -- len(proof.Tables) == len(source.Tables), and every source table is in the proof.
  abbrev pub covers : SourceIdentity → Proof → Bool
  covers source proof =
      length proof.tables == length source.tables
      && all (λ (t : Table). any (λ (v : TableProof). bytes_eq v.name (codes t.name)) proof.tables)
          source.tables

  -- The proof of a transfer, or none where ExecuteDomain returns an error: operation where the
  -- transfer itself failed (`some false`), unsafe where the stream proves too little.
  unfoldable pub transfer_proof : SourceIdentity → Transfer → Bool × Option Proof
  unfolding exhausted
  transfer_proof source x =
      let r = run_client x.restore (validate_reader x.stream x.breaks) in
      if is_nil r.0 && exhausted r.1 && not x.dump_failed
      then (
        true,
        elim (finish sha256 r.1.tracker) [
          | none ↦ none
          | some proof ↦ if covers source proof then some proof else none
        ],
      )
      else (false, none)

  -- The proof of the target's dump: the error of TargetDump, or that of Finish.
  unfoldable pub target_proof : Dumper → Option Error × Option Proof
  target_proof d = let r = run_dumper d new_tracker in (r.0, finish sha256 r.1)
