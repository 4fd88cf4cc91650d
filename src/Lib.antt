-- ===== src/Lib.antt =====
-- A verification of the license server (src/server): the parts that decide who may use a license.
--
-- The server is a monolith of modules over one database. A license is issued under a plan and moves
-- between active, suspended and revoked (modules/issuance). Machines are bound to it by activations,
-- up to its seat limit (modules/activation). Floating seats are leases, which are acquired, renewed
-- by heartbeats, released, and reclaimed by a worker (modules/lease). The modules share the tables:
-- an acquire reads the license and an activation, the worker reads the status of licenses, and an
-- activation reads the license whose row it locks. Events of payment providers (modules/billing)
-- issue licenses under the catalog's plans, renew and revoke them, and start a grace after which a
-- worker suspends them; a ledger of the events makes each take effect once. Rules that an author
-- writes (modules/policy) adjust the entitlements of a license when it is issued: a rule has a
-- condition on a bounded context and an effect that is kept within bounds.
--
-- Files, with the code that they model:
--   Prelude       shared names, tests on the native numbers, lists as tables, sorting
--   Store         the tables of one tenant as records and lists; a transaction is a function from
--                 the tables to a result with new tables, or to a thrown error, after which the
--                 tables are as before (server/db/client.ts, server/audit/index.ts)
--   Lease         Config, Handle, HolderKey, Repo with its child Change, Acquire with its child
--                 Seat, Renew and Reclaim model server/modules/lease/config.ts, handle.ts,
--                 holder-key.ts, lease-repo.ts, acquire.ts, renew.ts with release.ts, and
--                 reclaim-worker.ts; Seats, Endings, Fence, Sweep, Frame, Upkeep, Admission, Service,
--                 Bounds, Replay and Reach hold the proofs
--   Catalog       Effective models server/modules/catalog/effective.ts
--   Issuance      Lifecycle models server/modules/issuance/lifecycle.ts; Machine has the table of
--                 transitions and the refinement, History the sequences of actions; Issue models
--                 issueLicense of licenses.ts with claims.ts, and Issued has its proofs
--   Activation    Fingerprint, Credential, Activate with its child Bind, and Deactivate model
--                 server/modules/activation/fingerprint.ts, claims.ts, activate.ts, and deactivate.ts
--                 with registry.ts; Match, Outcome, Service, Seats, Freeing, Replay and History hold
--                 the proofs
--   Billing       Events, Subscription, Customers, Lifecycle with Overlay, GraceWorker and Webhook model
--                 events.ts with config.ts, subscription-repo.ts with ledger-repo.ts, lifecycle.ts,
--                 grace-worker.ts, and webhook.ts of server/modules/billing; Writes, Ledger, Known, Once,
--                 Upheld, Terminal, Stuck, Grace, Shape, Actions, Guard, Windows, Recorded and
--                 Summaries hold the proofs
--   Js            values of the language: finite numbers, infinities and NaN, texts, arrays, objects
--   Policy        Condition with Values and Evaluator, Effect, Validate with Authoring, Context, Rules
--                 with Selects and Audit, Resolve with Evaluation and Decide, and Routes with Transition model
--                 condition.ts, effect.ts, validate.ts, context.ts, rule-repo.ts, evaluate.ts and
--                 routes.ts of server/modules/policy. Of the proofs, Follows, Sound, Applied, Compiled
--                 and Checked are about checked conditions; Bounded, Asked, Ranking, Winner and
--                 Enforced about the choice of a rule; ContextFree, Stops, Limits and Overlap about
--                 the warnings; Minimal and Sections about the context; Decisions, Preview, Fired and
--                 Trail about the decisions of an issue; OneLive, LiveVersion, LifeCycle, History,
--                 Edits, Immutable and Caps about the table of rules
--   Examples      a small tenant, and every theorem with hypotheses at a run of it
--
-- Definitions keep the source's names in snake case: `acquireLease` is acquire_lease, and a part of
-- a function that the proofs speak of has a name of its own. An SQL statement is a function on the
-- list of rows: `find` for a query by key, `count_by` for COUNT, `update_where` for UPDATE, sorting
-- and `take` for ORDER BY with LIMIT. A unique index that a statement relies on is a test before the
-- row is written. Times are milliseconds since the epoch, uuids and hashes are numbers, columns of
-- integers that are not negative are native numbers. The clock of the server, the clock of the
-- database, fresh uuids and nonces are arguments. The signer, the salted hashes and the locks that
-- other sweeps hold are parameters, and so is what the signature check and the adapter of a provider
-- return for a delivery. Every loop is structural recursion, so there is no fuel. A finite number of the
-- language is a whole count of the smallest positive double, so that comparisons are exact; sums and
-- products of doubles are parameters. An object is the list of its fields, each key once.
--
-- Concurrency: the transactions of one license are serialised by a lock in the code, so a history
-- is a sequence of committed transactions. An acquire commits twice before its seat transaction, and
-- steps of others may come between: the relation of Lease.Reach lets a seat transaction follow its
-- reads at any time.
--
-- Not modelled: HTTP routes other than those that write policy rules, cryptography and key custody,
-- adapters of providers and reconciliation, the dry run of the policy engine, the authoring of the
-- catalog, listings of licenses and customers, usage metering, resellers, online enforcement, the
-- console and its front end, and the libraries in other languages.
pub mod Prelude
pub mod Js
pub mod Store
pub mod Lease
pub mod Catalog
pub mod Policy
pub mod Issuance
pub mod Activation
pub mod Billing
pub mod Examples
