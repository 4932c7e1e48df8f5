-- ===== src/Lib.antt =====
-- Verification of the ledgerdesk support desk: what decides about a ticket, from the state machine
-- and the queue to the intake and the consoles' transitions; what an account may do; and the calls
-- to a model, with the chain of what they cost and the rule that grounds a draft.
--
-- The program's parts, and the files that model them:
-- - States (src/server/states.ts): the published table of edges and its lookups. A state, a role
--   and a guard's owner are constructors for the source's strings. States/Diagram has the arrows
--   as a relation, States/Console what a person may take, States/Trace runs of a ticket.
-- - Priority (src/alg/priority.ts): `computePriority` and the maps, normalisations, weights and
--   anomalies that it reads.
-- - Queue (src/alg/priority.ts): `queueKey`, `compareQueueKeys`, `orderQueue`, the stored collation
--   and `applyReopen`. It keys a ticket with Priority's breakdown.
-- - Dedupe (src/alg/priority.ts): `dedupeKey`, `dedupeDecision`, `collapseDuplicates`.
-- - Escalation (src/alg/escalation.ts): the eight clauses and the verdict, on Priority's features.
-- - Tickets (src/server/tickets.ts, src/server/errors.ts, and the row policies of
--   migrations/0001_core.sql and migrations/0005_app_access.sql): `transitionTicket`, which looks
--   its edge up in States, the reads of a session, and, in Tickets/Intake, `validateDraft` and `createTicket`, which asks
--   Dedupe for its decision.
-- - Runs (src/server/run_registry.ts): which organisation holds which run.
-- - Reading (src/server/reading/policy.ts, and the types that it reads in
--   src/contracts/material_reading.ts): the decision on a reading, the metadata that a grant lets
--   through, and the prerequisites of a projection.
-- - Authority (src/server/access/invitation_authority.ts, src/server/access/authority_rules.ts
--   and `scalarOrder` of src/contracts/access_canonical.ts): `contains`, on the
--   hierarchy of scopes; Authority/Declarations the declarations that an investiture rests on;
--   Authority/Grants a snapshot's supports and grants, `allows`, and the deadline that it lowers;
--   Authority/Compiling `compile`, the terms of an invitation, with `canonicalValue` of their keys.
-- - Canonical (agents/canonical.ts): `canonicalJson`, `isHex64` and `formatAud`. Canonical/Reader is
--   a reader for what is written, Canonical/Normal the value with its members in order.
-- - Chain (agents/ledger/row.ts, agents/audit.ts): a row with its predecessor's digest and its own,
--   over any content. Ledger and Audit fill it.
-- - Ledger (agents/ledger/row.ts): the row's columns, `linkRow`, `verifyRowHash`. Ledger/Store
--   (agents/ledger/pg.ts, agents/ledger/store.ts, and the trigger and keys of migrations/0002_ledger.sql and
--   migrations/0011_error_codes_in_english.sql): `append` against the table. Ledger/Money:
--   `microFromNumericText`.
-- - Redaction (agents/redaction.ts, agents/canary.ts): the search for removed values, the markers
--   and the canaries.
-- - Gateway (agents/gateway.ts): `run`, the body of `call`. Gateway/Types has its state and what it
--   is built from, Gateway/Preparing the checks and the redaction, Gateway/Rows what is sent and
--   written, Gateway/Running the rest of the call, Gateway/Calling `call`, which files security
--   events, and `wouldAdmit`, Gateway/Cases a rule over the courses of `run`, Gateway/Ceiling the steps of calls that interleave in one process. It asks a ledger store, a
--   redactor and a provider, which are fields of `Gateway`.
-- - Audit (agents/audit.ts, `record` of agents/ledger/pg.ts): the security events and their chain,
--   one for each organisation, in the table with its trigger, constraint and key.
-- - Grounding (agents/grounding.ts, and `normaliseRun` of agents/draft/envelope.ts): whether a draft
--   is grounded in the sources that it was given.
-- - Prelude: strings, integers, decimal digits, maps and lists.
--
-- How the state is modelled: the database is a list of tickets and a list of accounts, and an
-- operation takes it and returns its result with the database that it leaves. A session's policies
-- are tests on a row. `transition_ticket` takes one database for its read and one for its update,
-- since another session may commit between them; `create_ticket` holds its advisory lock and runs
-- on one. An error is a value: `fail` for the code's own, `unique_violation` for the database's.
-- The digest, the new identifier and the clock are arguments. The ledger's table is a list of rows,
-- the newest first; `append` reads its head from one table and inserts into what other writers have
-- made of it, for each of its six rounds.
--
-- Bounds: a string is the list of its UTF-16 code units. Numbers are exact: a weight counts units
-- of 10⁻⁹, a sentiment, a confidence and a stored score units of 10⁻⁶, an instant milliseconds, and
-- quotients are fractions; NaN and the infinities are values of their own where the source tests
-- for them. An instant in the stored collation is below 10²¹, and a provider's token counts are not
-- negative. The fuel of a number's digits is one more than the number, and a number has no more
-- digits than that. `contains` has the source's own bound of 32 scopes, as the
-- rounds that are left, and so have `supportAlive` and `grantAlive` of 32 supports and grants.
-- `record` and `append` have the source's six rounds.
--
-- Not modelled: the rounding of binary floating point; lower case outside ASCII; the messages and
-- details of an error; the foreign keys of a row and its columns that no modelled code reads or
-- writes; the assembly and validation of a reading's response; the redactor's
-- regular expressions, Unicode's lower case in the search for removed values, `JSON.parse` of a
-- declared confidence, the detail of the gateway's security events, and the
-- checks of its configuration; the agents, document intake, the other parts of access, and the
-- pages and routes.
pub mod Prelude
pub mod States
pub mod Priority
pub mod Queue
pub mod Dedupe
pub mod Escalation
pub mod Tickets
pub mod Runs
pub mod Reading
pub mod Authority
pub mod Canonical
pub mod Chain
pub mod Ledger
pub mod Audit
pub mod Redaction
pub mod Gateway
pub mod Grounding
