-- ===== src/Tickets.antt =====
-- Tickets over the database (src/server/tickets.ts), under the row-level policies that a session
-- runs with (migrations/0001_core.sql and 0005_app_access.sql). Instants are milliseconds.
pub mod Applying
pub mod Race
pub mod Success
pub mod Reads
pub mod Intake
mod Examples
use ledgerdesk.Prelude.{
  ℕ, ◌≡◌, Bool, true, false, ◌&&◌, ◌||◌, not, Option, none, some, List, [], ◌∷◌, find, select, any,
  length, ltb, ◌==◌, if◌then◌else◌, ℤ, Text, text, text_eq, text_lt,
}
use ledgerdesk.States.{
  TicketState, new, resolved, closed, state_eq, UserRole, customer, agent, supervisor, Transition,
  find_transition, is_guard_available, role_allowed,
}

pub record Claims : Type 0 where
  pub org_id : Text
  pub role : UserRole
  pub sub : Text

-- A row of `ticket`: what the code reads of it, and what it writes.
pub record TicketRow : Type 0 where
  pub id : Text
  pub org_id : Text
  pub account_id : Text
  pub customer_id : Text
  pub subject : Text
  pub body_raw : Text
  pub status : TicketState
  pub created_at : ℤ
  pub body_sha256 : Option Text
  pub dedupe_key : Option Text
  pub sla_due_at : Option ℤ
  pub category : Option Text
  pub severity : Option ℕ
  pub sentiment : Option Text
  pub confidence : Option Text
  pub priority : Option Text
  pub escalation_reason : Option Text
  pub escalation_clause : Option Text

pub record Account : Type 0 where
  pub id : Text
  pub org_id : Text

pub record Database : Type 0 where
  pub tickets : List TicketRow
  pub accounts : List Account

pub data AppErrorCode : Type 0 where
  e_no_session e_role_not_permitted e_dev_identity_disabled e_field_invalid e_ticket_not_visible
        e_transition_illegal e_transition_guard_unavailable e_transition_stale e_no_account_for_org
        e_account_ambiguous e_contract_violation e_gap_commitment_missing e_runtime_snapshot_stale
        e_internal :
      AppErrorCode

pub record AppError : Type 0 where
  pub code : AppErrorCode
  pub status : ℕ

-- A promise that is fulfilled, one that is rejected with an `AppError`, and one that is rejected
-- with the database's own unique violation (23505).
pub data Result {ℓ} (A : Type ℓ) : Type ℓ where
  ok : A → Result A
  fail : AppError → Result A
  unique_violation : Result A

infixl 6 ◌>>=◌
abbrev pub ◌>>=◌ {κ ℓ} : {B : Type κ} {A : Type ℓ} → Result A → (A → Result B) → Result B
unique_violation >>= next = unique_violation
fail e >>= next = fail e
ok a >>= next = next a

-- A step of which only the failure counts.
infixl 6 ◌>>◌
abbrev pub ◌>>◌ {ℓ} : Result (Unit {0}) → {B : Type ℓ} → Result B → Result B
step >> rest = step >>= λ _. rest

abbrev pub error {ℓ} : {A : Type ℓ} → AppErrorCode → ℕ → Result A
error code status = fail (record { code = code; status = status })

abbrev pub ensure : Bool → AppErrorCode → ℕ → Result (Unit {0})
ensure true code status = ok tt
ensure false code status = error code status

abbrev pub is_staff : UserRole → Bool
is_staff customer = false
is_staff agent = true
is_staff supervisor = true

-- `tenant_isolation` and `customer_own_rows`: a session reads the rows of its organisation, and a
-- customer of those only their own.
unfoldable pub visible : Claims → TicketRow → Bool
visible claims row =
    text_eq row.org_id claims.org_id && (is_staff claims.role || text_eq row.customer_id claims.sub)

-- With `ticket_write_is_staff`, the rows that an update may touch.
unfoldable pub writable : Claims → TicketRow → Bool
unfolding visible
writable claims row = visible claims row && is_staff claims.role

-- `select … from ticket where id = $1`
unfoldable pub read_one : Claims → Text → List TicketRow → Option TicketRow
unfolding visible
read_one claims id rows = find (λ row. visible claims row && text_eq row.id id) rows

-- The rows that `update ticket set status = $1 where id = $2 and status = $3` matches.
unfoldable pub matched : Claims → Text → TicketState → TicketRow → Bool
unfolding writable
matched claims id from row = writable claims row && (text_eq row.id id && state_eq row.status from)

abbrev pub with_status : TicketState → TicketRow → TicketRow
with_status to row = record row { status = to }

unfoldable pub set_status :
    Claims → Text → TicketState → TicketState → List TicketRow → List TicketRow
set_status claims id from to [] = []
set_status claims id from to (row ∷ rows) =
    (if matched claims id from row then with_status to row else row)
    ∷ set_status claims id from to rows

-- The checks of an edge, in their order: that there is one, its guard, its role.
unfoldable pub check_edge : Claims → TicketRow → Option Transition → Result (TicketRow × Transition)
unfolding is_guard_available
check_edge claims current none = error e_transition_illegal 409
check_edge claims current (some t) = do
  ensure (is_guard_available t) e_transition_guard_unavailable 409
  ensure (role_allowed t.requires_role claims.role) e_role_not_permitted 403
  ok (current, t)

unfoldable pub check_transition :
    Claims → Option TicketRow → TicketState → Result (TicketRow × Transition)
unfolding check_edge
check_transition claims none to = error e_ticket_not_visible 404
check_transition claims (some current) to =
    check_edge claims current (find_transition current.status to)

-- The compare-and-set: it stands if it has updated one row, and is rolled back if not.
unfoldable pub commit_update :
    Claims
    → Text
    → TicketState
    → TicketState
    → Database
    → List TicketRow
    → Result TicketRow × Database
unfolding set_status
commit_update claims id from to db (row ∷ []) =
    (ok (with_status to row), record db { tickets = set_status claims id from to db.tickets })
commit_update claims id from to db _ = (error e_transition_stale 409, db)

unfoldable pub apply_transition :
    Claims → Text → TicketState → TicketState → Database → Result TicketRow × Database
unfolding matched commit_update
apply_transition claims id from to db =
    commit_update claims id from to db (select (matched claims id from) db.tickets)

-- What the session does with the checks' result.
unfoldable pub proceed :
    Claims
    → Text
    → TicketState
    → Database
    → Result (TicketRow × Transition)
    → Result TicketRow × Database
unfolding apply_transition
proceed claims id to db (ok (current, t)) = apply_transition claims id current.status to db
proceed claims id to db (fail e) = (fail e, db)
proceed claims id to db unique_violation = (unique_violation, db)

-- `seen` is the database at the read, and `db` at the update: another session may commit between.
unfoldable pub transition_ticket :
    Claims → Text → TicketState → Database → Database → Result TicketRow × Database
unfolding check_transition read_one proceed
transition_ticket claims id to seen db =
    if not (is_staff claims.role)
    then (error e_role_not_permitted 403, db)
    else proceed claims id to db (check_transition claims (read_one claims id seen.tickets) to)
