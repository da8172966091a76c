-- ===== src/Lib.antt =====
-- A verification library for the kernel of the brain repository: the error model, the life of a
-- sidecar, the frames and the RPC session between kernel and sidecar, the agent loop with its
-- runner and its streams, the in-memory stores, the audit log, the vault, the sandbox, the
-- policies on files and tools, and the ring buffer of market data, all translated from the Go
-- sources.
--
-- The program: a kernel runs sidecar processes and agent loops. Every failure is a `BrainError`
-- made from a registry of codes (errors/), and one function decides whether it is retried. The
-- kernel and a sidecar exchange frames (protocol/frame.go) over the sidecar's standard streams,
-- and on them a session of calls in both directions (protocol/rpc.go), watched by pings
-- (protocol/heartbeat.go). A sidecar's life is a state machine (protocol/lifecycle.go). A run
-- (loop/) is a state machine with a budget; the runner drives it turn by turn, calling a language
-- model and the tools that it asks for, watched by a detector of loops; a model's answer may come
-- as a stream of events. What a tool may read and write is decided by globs (internal/pathglob/,
-- executionpolicy/), which tools a run has by profiles (toolpolicy/), and what a sandbox lets
-- through by its lists (security/). Plans, checkpoints and usage rows are kept in stores
-- (persistence/), and security events in a log of chained hashes, to which the vault of secrets
-- reports every call (security/). Market data comes through a ring buffer (internal/data/ring/).
--
-- Conventions. A method that runs as a whole under its mutex is one function from the state to the
-- new state and its results, and an interleaving of callers is a list of operations. Other methods
-- take several steps. The calls of an RPC session are a step relation on a session with all its
-- calls. Resume makes three calls of its store without a lock of its own: what others do to the
-- store in between is an argument. WriteFrame tests `closed` and then selects on the queue, and
-- the calls of the vault take their locks anew for an eviction and write the audit event behind
-- them: such a call is modelled without another one in between. An int64 is an integer with its
-- wrap-around written out (`wrap64`). A Go map is an association list; what the source makes of a
-- map's order of iteration is sorted or not observed, save for the vault's List, which shows it.
-- The clock, the context's error and random draws are arguments, and so are path.Match and
-- os.Stat. JSON payloads stand for what decoding them gives, or for its failure, and how raw JSON
-- is encoded is an argument. A returned error is its code; in the error model itself it is the
-- whole value. Amounts in float64 are an abstract type with the operations that the code uses.
-- `time.Duration` and times are nanoseconds.
--
-- Files.
-- - Prelude: names passed on, tests, integers (Int), maps (Assoc), results (Result), the insertion
--   sort of the stores with its correctness (Sorting), and what the sources use of strings,
--   strconv and fmt on bytes (Text, with Text.Decimal) and of path and path/filepath on
--   slash-separated paths (Text.Paths, with Paths.Cleaned).
-- - Errors.Codes, Errors.Class: errors/codes.go, errors/class.go, errors/class_map.go.
-- - Errors.Registry: errors/registry.go (`register` is Register, `lookup` Lookup, `len` Len,
--   `register_all` the loop of init). Registry.Catalogue has its laws.
-- - Errors.New: errors/error.go, errors/new.go, errors/go_error_map.go (`new` is New, `wrap` Wrap,
--   `apply_option` every With option). New.Classified relates them to the registry and to Decide.
-- - Errors.Decide: errors/decide.go (`decide` is Decide, `backoff_for` backoffFor). Decide.Retry
--   and Decide.Backoff have its laws.
-- - Protocol.Lifecycle: protocol/lifecycle.go (`transition_to` is TransitionTo,
--   `force_transition_to` ForceTransitionTo), with Lifecycle.Ranks and Lifecycle.Trace.
--   Protocol.StaleResponses: the StaleResponseTracker of protocol/heartbeat.go, with
--   StaleResponses.Window. Protocol.Heartbeat: the PingScheduler of the same file (`tick` is a
--   round of loop, `count_misses` countMisses, `handle_pong` handlePong), with Heartbeat.Hung.
--   Protocol.Rpc: protocol/rpc.go (`dispatch` is dispatch up to the send, `deliver` the send,
--   `dispatch_request` dispatchRequest, `register_waiter` registerWaiter, `close` Close), with
--   Rpc.Peers; Rpc.Calls has Call and readLoop as steps, with Calls.Bounds, Calls.Distinct,
--   Calls.Open and Calls.Routed. Protocol.Frame: protocol/frame.go (`read_frame` is ReadFrame,
--   `read_line` readHeaderLine, `write_one` writeOne), with Frame.Lines, Frame.RoundTrip,
--   Frame.Limits and Frame.Malformed; Frame.Writer is the queue of its writer (`write_frame` is
--   WriteFrame, `loop` a round of the goroutine, `close` Close), with Writer.Delivery.
-- - Loop.Budget: loop/budget.go, with Budget.Limits. Loop.Run: loop/run.go and loop/run_helper.go,
--   with Run.States. Loop.Detector: loop/mem_loop_detector.go and loop/loop_detector.go, with
--   Detector.Patterns and Detector.Verdicts. Loop.Chat: the messages, requests and responses of
--   llm/, and a runner's surroundings as a parameter. Loop.Runner: loop/runner.go (`execute` is
--   Execute, `round` a round of its loop, `dispatch_tools` dispatchTools), with Runner.Termination
--   and Runner.Conversation. Loop.Stream: drainStream of loop/turn_executor.go, the consumer of
--   loop/mem_stream.go and lowerToStream of llm/mock_provider.go, with Stream.Lowered.
-- - Persistence.PlanStore, Persistence.Checkpoints, Persistence.UsageLedger:
--   persistence/mem_plan_store.go, persistence/mem_run_checkpoint.go,
--   persistence/mem_usage_ledger.go and the files of their record types, each with a child for its
--   laws. Persistence.Resume: persistence/mem_resume.go, with Resume.Foretold and Resume.Cap.
--   Persistence.ArtifactMeta: persistence/mem_artifact_meta.go and persistence/artifact_meta.go,
--   with ArtifactMeta.Counts. Persistence.ArtifactStore: persistence/mem_artifact_store.go and
--   ComputeKey of persistence/cas.go, on top of Persistence.ArtifactMeta, with
--   ArtifactStore.Addressing.
-- - Security.AuditChain: security/hash_chain_audit.go and security/audit.go, with
--   AuditChain.Chain, AuditChain.Separators and AuditChain.Tampering. Security.Vault:
--   security/mem_vault.go (`get` is Get, `put_with_ttl` PutWithTTL, `evict` the deletion inside
--   Get, which takes its lock anew), with Vault.Expiry, Vault.Audited and Vault.Secrecy.
--   Security.Sandbox: security/sandbox.go and security/mem_sandbox_check.go, with
--   Sandbox.Elements.
-- - Policy.PathGlob: internal/pathglob/pathglob.go (`match` is Match, `match_segments`
--   matchSegments with its memo), with PathGlob.Matches. Policy.FilePolicy:
--   executionpolicy/file_policy.go, with FilePolicy.Confined. Policy.ToolRegistry:
--   tool/mem_registry.go. Policy.ToolPolicy: toolpolicy/toolpolicy.go without its reading of
--   files, with ToolPolicy.Filtered.
-- - Market.RingBuffer: internal/data/ring/ring.go (`write` is Write, `read_since` ReadSince,
--   `snapshots` Snapshots, `restore_snapshots` RestoreSnapshots), with RingBuffer.Slots,
--   RingBuffer.Contents, RingBuffer.Window, RingBuffer.Recent and RingBuffer.Restored.
-- - A module Tests below each of these has runs on concrete values.
--
-- Bounds and fuel. The runner's loop and the loop over a frame's headers run on fuel: Execute
-- needs one round more than the turns that are left, and ReadFrame one more than the bytes of the
-- stream, which is what `read_frame` gives. Trimming white space takes the length of the text, and
-- printing a number 19 digits, which hold every int. Splitting a text into chunks takes a round
-- for each rune. All other loops recur on a number or a list. The backoff's float64 values are
-- whole and below 2^35, where float64 is exact; the last product is taken exactly.
--
-- Not modelled: the texts of error messages made by fmt, the fingerprint, observers of errors and
-- of tools, the decoding and encoding of JSON, the windows paths of path/filepath, the cache
-- points of a request, the guards of toolguard/, symbolic links in the checks of the sandbox, I/O
-- errors other than the end of a stream, a Close between the two halves of WriteFrame (it panics),
-- the stores in files, the strategies of the trading brains, the command line and the installers.
pub mod Prelude
pub mod Errors
pub mod Protocol
pub mod Loop
pub mod Persistence
pub mod Security
pub mod Market
pub mod Policy
