-- ===== src/Lib.antt =====
-- The runner of EnvPlane: the parts of it that decide what is copied, what is stored, and what may
-- be said of a failure.
--
-- MysqlCopy is internal/mysqlcopy, which copies one MySQL database into a preview environment:
--   MysqlCopy/Plan: plan.go, the plan and Plan.Validate with its regular expressions; validRef is
--     valid_ref, and each group of checks of Validate has a definition of its own.
--   MysqlCopy/Failure: failure.go, safeFailure and safeCause on trees of errors; Failure/Walk has
--     FailureInfo, FailureStages and StageOf, with the 64 visits of the source as fuel.
--   MysqlCopy/Quote and Schema: the quote scanner that stream.go, reader.go and schema.go repeat,
--     and normalizeSchema.
--   MysqlCopy/Stream: stream.go, the tracker: tracker.Write is write, tracker.statement statement,
--     tracker.Finish finish. Its state is a Tracker; the tables and the row total that statements
--     read and write are its ledger.
--   MysqlCopy/Reader: reader.go, validatedSQLReader.Read over an input that ends in io.EOF or in
--     an error; the input is a list of bytes, so the loop is structural.
--   MysqlCopy/Executor: executor.go, DomainExecutor.ExecuteDomain. The Transport, the Authority and
--     the context are functions of a world of any type, which each call may change; the calls are
--     recorded in a trace. Executor/Stream has the transfer: Restore is a client that chooses each
--     Read by what the last one returned, TargetDump a writer of the same kind. Executor/Protocol
--     has the automaton of the calls and the rules by which Steps, Copying and Follows show that
--     runs follow it; Executor/Trusts and Redacted are about the errors that come out.
--   MysqlCopy/Catalog: catalog.go, catalogAuthority on the text of SHOW GRANTS.
-- The executor uses the reader, the reader the tracker, and the tracker the schema and the quotes;
-- what an executor returns has passed the failure module.
--
-- Store is internal/store, the JSON stores:
--   Store/Table: a Go map as an association list.
--   Store/Environment: store.go and environment_record.go; JSONStore.Save is save. Its part Record
--     is about the entries of the file, History about the calls.
--   Store/Claim: bootstrap_token_claim.go, ApplyBootstrapTokenClaim.
--   Store/Session: bootstrap_session_store.go, which claims tokens by Store/Claim.
--   Store/Config: project_config_store.go.
--   Store/Catalog: project_store.go, product_store.go and settings_store.go. Its part Lookup is
--     about what a product is found by, Named about its names.
-- A file is a disk of any type: reading, decoding and writing it are arguments that may fail. The
-- locks of the stores make every call atomic, so a history is a sequence of calls.
--
-- PvcCopy is internal/pvccopy, which copies the file tree of one volume into another:
--   PvcCopy/Plan: plan.go, the plan with Plan.Validate, Plan.Digest and markerFor.
--   PvcCopy/Archive: archive.go, consume and Relay: what archive/tar reads is checked entry by entry
--     and passed on to a destination. Archive/Names has validPath, with UTF-8 and the elements of a
--     path; Archive/Encoding hashHeader; Archive/Wire archiveReader; Archive/Tree says what a
--     receipt stands for.
--   PvcCopy/Local: local.go, Inspect, Receive and Complete over the state directory of a volume, on a
--     disk of which every operation is done, refused or cut short as a list of fates says.
--     Local/Hoare has the rules for what programs on it leave.
--   PvcCopy/Controllers: controllers.go, consumes, controllerSafe and CheckControllers.
--   PvcCopy/Quantity: domain.go, quantityBytes with the pattern it reads. SetString is read as the
--     value of decimal digits over a power of ten.
--   PvcCopy/Fence: fence.go, fenceAuthority, from which the names of the admission fence come, and
--     the bounded output and the evidence of a probe.
--   PvcCopy/Executor: executor.go, Execute against any Transport over a world of any type.
--     Executor/Types has the data and the checks on them, Executor/Protocol the step relation of
--     the events and the rules by which Follows and Cleanup show that runs keep to it.
-- The executor relays an archive between two helpers and compares its receipts; both ends of the
-- relay, and Kubernetes, are the Transport.
--
-- Integers are naturals: the bounds that Validate sets (2^40 bytes, 16 MiB for a statement, 10^8
-- rows) keep every counter far below 2^63, and a negative bound is refused as 0 is. Times are
-- naturals with 0 for the zero time. Strings are bytes where the code takes them apart, and native
-- strings in the plan of MysqlCopy. SHA-256, JSON, the clock, the library's sort, EqualFold and ToLower on texts
-- outside ASCII are arguments. Where the code walks a map, the order is that of a list.
--
-- Not modelled: the SQL stores, the MySQL driver and the Kubernetes clients behind the Transports,
-- the walk and the files of the PVC copy (Export, the target receiver, CopyLocal), its fence's
-- manifests and its domain adapter, the orchestrator, the runtime (internal/runner), internal/gitops, internal/sandbox and
-- cmd. Timeouts are the context's answers; goroutines are the two sides of the
-- pipe, of which the reading side is modelled.
mod Prelude
pub mod MysqlCopy
pub mod Store
pub mod PvcCopy
