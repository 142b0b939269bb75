-- ===== src/Lib.antt =====
-- A verification library for Vuoro: the parts of it that decide who may act, what was done and what a
-- record proves.
--
-- The program is a set of Python packages. `packages/vuoro-service` serves callers: it leases subjects
-- to holders, keeps keys of requests against replay and limits rates. `packages/vuoro-mcp-edge` offers
-- tools to a cloud caller, whose writes carry an idempotency key. `packages/vuoro-evidence` keeps a
-- ledger of evidence and decides whether an effect may be run again. `packages/vuoro-reconciler` runs on
-- the trusted side and turns accepted intents into signed commits and pull requests.
--
-- Which file models which part (a definition has the name of the function or class it models; what is
-- one function in Python and several here is cut where it branches on a value it looked up):
--
-- Lease: packages/vuoro-service/src/vuoro_service/lease.py. `LeaseStore` is the state, one function per
--   method, with the clock reading and the new uuid as arguments. Lease/Invariant and Lease/Steps: the
--   invariant over sequences of calls; Lease/Settlement, Lease/Grants: each call; Lease/Dead: what a
--   takeover or a completion ends; Lease/Evidence: what is retained.
-- Replay: .../vuoro_service/replay.py. Entries and the heap of expiries, with a heap as a sorted list.
-- RateLimit: .../vuoro_service/rate_limit.py, over any arithmetic of floats.
-- Idempotency: packages/vuoro-mcp-edge/src/vuoro_mcp_edge/idempotency.py, the in-memory ledger.
-- Reconciler: packages/vuoro-reconciler/src/vuoro_reconciler. Intents (intents.py), Verification
--   (verification.py), DiffPolicy (diff_policy.py), Acceptance (acceptance.py), World (provider.py, and
--   what git, the intent source and the clock answer), Authorise, Publish and Process (reconciler.py:
--   the tests of `_process`; `_preflight`, `_lookup`, `_publish`; the rest of `_process` and the loops of
--   `run_once`; Process/Standard puts its checks together). DiffPolicy/Paths, Authorise/Unchanged
--   and Authorise/Authorised say what passes in terms of the intent, the change and the config. A
--   piece of it is an effect on a state with a record of every call that it made. What the outside
--   answers is a function of that record, so it may change in any way between calls.
-- Reconciler/Journal: execution_journal.py, with the helpers of protected_copy_codec.py that it uses. The
--   documents (Journal), effects and copies (Copies, protected_effects.py), reading and checking bytes
--   (Format), `_binding`, `effect_key` and the views of `seen` (Bindings), `_payload` (Payload), `_verify`
--   and `_validate_all` (Verify), the operations (Operations). A journal is a dict from an effect's key to
--   its rows. Steps is the machine that the calls are steps of; Once, History, Published, Kept and
--   Recorded are what follows.
-- Reconciler/Currentness: `evaluate_currentness` of protected_currentness.py.
-- Reconciler/Executor: protected_executor.py. Requests (`_request`, `_provider_result`), Execute (the
--   methods), Turn (the loop of `_execute`) and Run (`_execute` and `run`), as effects on a session: the
--   journal, whether a commit of it failed, and the calls that were made. A sequence of runs, with the
--   journal opened anew between them, is `drive`. Safe holds the rules that every piece is shown safe by.
-- Evidence: packages/vuoro-evidence/src/vuoro_evidence/core. Model, Chain, Builder (set_builder.py),
--   Reducer and Decide (decision.py).
-- Schema: packages/vuoro-schema-runtime/src/vuoro_schema_runtime/runtime.py, for a ledger of typed rows;
--   Schema/Compatible: what a compatible ledger is.
-- Prelude, Dict and Text: shared names and tests, Python's `dict` and operations on texts.
-- Examples: a concrete input for each part.
--
-- Recursion is structural throughout, so no bound or fuel is chosen. Numbers are natural numbers: a
-- clock and a `datetime` count ticks from an origin (nanoseconds, in Replay), and the bound on uses or
-- entries is any number.
--
-- Parameters stand for what is not in the repository: the arithmetic of floats, SHA-256 of a canonical
-- JSON text, `fnmatch`, the Unicode tables behind `str.lower`, `str.isprintable` and `str.strip`,
-- UTF-8 decoding, the JSON, Base64 and URL functions behind the journal (`Library`), and the answers
-- of git, the forge, the provider and the intent source. Of the repository's own code, the decoder of
-- protected copies (`Copies`), that of a basis (`is_decoded`), and the ledger, basis and git parts
-- that an executor is put together from are parameters too. No theorem assumes that a digest has no
-- collisions: where that matters, the collision is part of the conclusion.
--
-- Not modelled: HTTP, files, processes and the command lines; the loading of configuration files; the
-- processes, registries and wire decoders of the reconciler's protected path; the journal's installation,
-- its files and locks, and the rebinding of an empty one; the client, the
-- contracts, the knowledge, worker and workspace packages; texts that are only for a reader, such as
-- rationales and details, and log records. The in-memory stores are the ones modelled: their methods
-- run to the end without interleaving, as they do under a lock or in one thread of an event loop.
pub mod Prelude
pub mod Dict
pub mod Lease
pub mod Replay
pub mod RateLimit
pub mod Idempotency
pub mod Evidence
pub mod Text
pub mod Schema
pub mod Reconciler
mod Examples
