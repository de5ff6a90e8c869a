-- ===== src/Lib.antt =====
-- Samurai Sushi: a verification library for the program's deterministic core.
--
-- The program. A browser game serves one scripted evening: a guest or player sends commands, and a
-- reducer without side effects turns a stored checkpoint and a command into a decision, which the
-- server stores and projects for display (packages/domain). A settled evening can be published as a
-- receipt on a Tezos chain: a server issues a signed permit, an authority admits it once
-- (packages/receipt-authority), and the operation's life is followed by two transition tables and a
-- reducer of what observers report (packages/receipt-lifecycle). A wallet is linked by a reducer of
-- its own (packages/wallet-link), and a guest's progress is claimed by an account with a challenge that
-- the wallet signs (packages/domain). The server executes a guest's command in one transaction, with a
-- receipt for its retries and an event whose delivery is claimed, retried and buried
-- (packages/persistence). Commands that touch a chain first validate their environment
-- (packages/network).
--
-- The parts and their files.
--   Common: native numbers, tests, lists, and `Result`, in which an exception is the code that it
--     carries.
--   Json: values as finite trees. Json.Unicode, Json.Canonical and Json.Text are
--     packages/domain/src/canonical-json.ts; Json.Bounds is `assertBoundedJson`, and Json.Shape the
--     readers of properties, of packages/domain/src/evening-service.ts.
--   Commands: packages/domain/src/commands.ts, canonical.ts and model.ts, with their regular
--     expressions in Commands.Patterns. Validation reads the properties in the source's order.
--   Service: packages/domain/src/evening-service.ts. Service.Definition is the authored evening,
--     Service.Components the component ledger, Service.Decode and Service.Encode the stored form,
--     Service.Invariants `assertEveningServiceInvariants`, Service.Steps the cases of the switch in
--     `reduceEveningService`, Service.Reduce what surrounds them, and Service.Project the
--     projection. A case gives a `Move`, the changed checkpoint or a cue, and `conclude` does what
--     each case does at its end: it recomputes the ledger, moves the revision on and decodes again.
--   Receipt: of packages/receipt-authority/src, model.ts (Receipt.Payload, Receipt.Permit and
--     Receipt.Admission), michelson-pack.ts (Receipt.Pack), michelson-argument.ts
--     (Receipt.Argument), commitment.ts and issuance.ts (Receipt.Issuance); and
--     packages/receipt-lifecycle/src/state-machine.ts (Receipt.Lifecycle). An issued permit rests on
--     a checkpoint that Service.Decode accepts as settled.
--   Observation: packages/receipt-lifecycle/src/observation.ts. Observation.Read is
--     `normalizeOperationObservation`, Observation.Finality the finality policy, Observation.Compare the
--     tests of an observation against the durable view, and Observation.Reduce
--     `reduceOperationObservation`, whose transitions are asserted by Receipt.Lifecycle.
--     Observation.Steps describes a decision as a step relation, on which the other files argue.
--   Executor: packages/persistence/src/command-executor.ts and canonical-decision.ts, with the queries of
--     repositories.ts that they make. A database is a `Store` of tables, `execute` gives the store that
--     the transaction commits, and a transaction that throws gives no store. Executor.Session matches the
--     resume secret, Executor.Bounds walks a command, Executor.Rows has the queries, Executor.Decision reads what a handler returns,
--     Executor.Answered, Executor.Opened and Executor.Inversion say what a returned result has passed, and
--     Executor.Responses that a response is canonical (Json.Ordered).
--   Outbox: packages/persistence/src/outbox.ts, on the table that Executor inserts into. Outbox.Rows shows
--     each transaction to be a step of every row, and Outbox.Laws runs sequences of transactions.
--   Claim: packages/domain/src/claim-protocol.ts. Claim.Preflight is the walk before the encoding,
--     Claim.Readers and Claim.Parse the parsers, Claim.Bytes the canonical and signed bytes.
--   StrictJson: packages/account-http-runtime/src/strict-json.ts, over code units. StrictJson.Scan has strings,
--     numerals and delimiters, StrictJson.Value the reader, StrictJson.Objects the object checks.
--   Wallet: packages/wallet-link/src/state-machine.ts.
--   Network: packages/network/src/policy.ts and signing-policy.ts.
--   Examples: runs at concrete inputs.
--
-- Parameters. Whether the number of a numeral is finite, SHA-256, base58, BLAKE2b, UTF-8, signature verification and the URL parser are
-- arguments of the definitions that call them; `Codec` collects those of the receipt authority, and
-- `Platform` those of the claim protocol. The executor takes the answers of the key authority in one
-- transaction as an `Authority`; the outbox takes the collation of the database, the rows that other
-- transactions hold, and the readiness and the clock of each transaction.
--
-- Bounds and fuel. Revisions and generations are natural numbers compared with the largest safe
-- integer. The worklist of `assertBoundedJson` counts down the 4096 nodes that the source allows.
-- The walks of a command and of a claim payload count down their 2048 and 1024 nodes the same way.
-- Times are counts of milliseconds. `zarith_rest` takes what remains as its fuel, which suffices
-- because each round divides it by 128. `parse_strict_json` takes one unit of fuel for each call of a
-- reader; two for each code unit and two more suffice, since every value takes a code unit at least.
--
-- Not modelled. The texts of error messages; frozen objects; cycles, shared references, accessors,
-- symbol keys and array holes of JavaScript values; an own property `__proto__`, which the copy of
-- `canonicalize` loses and the model keeps; the context of a projection before it is typed;
-- numerals from 10^21 on, which are counted by their decimal digits; the display, HTTP beyond the
-- reader of bodies, the content compiler, the wallet's runtime, and of the database the key
-- authority, the migrations and the stores of sessions, claims, recoveries and receipts. Concurrent
-- transactions of the executor are modelled one after another, as its locks order them.
pub mod Common
pub mod Json
pub mod Network
pub mod Commands
pub mod Service
pub mod Examples
pub mod Receipt
pub mod Wallet
pub mod Observation
pub mod Outbox
pub mod Executor
pub mod Claim
pub mod StrictJson
