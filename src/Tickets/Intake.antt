-- ===== src/Tickets/Intake.antt =====
-- The intake of a ticket (`validateDraft`, `createTicket` and what they call in
-- src/server/tickets.ts), in one session after another. `sha256` is the digest of a body,
-- `new_id` the identifier that the database generates, and `now` its clock after the lock.
pub mod Outcome
pub mod Keys
pub mod Repeat
pub mod Accept
pub mod Draft
use mathlib.Core.Option
use ledgerdesk.Prelude.{
  ℕ, Bool, true, false, ◌&&◌, ◌||◌, not, ltb, ◌==◌, Option, none, some, List, [], ◌∷◌, ◌++◌, select,
  any, length, if◌then◌else◌, ℤ, ltb_ℤ, eq_ℤ, Text, text, text_eq, text_lt, trim,
}
use ledgerdesk.States.{TicketState, new, resolved, closed, state_eq}
use ledgerdesk.Dedupe.{
  Submission, DedupeIncumbent, DedupeDecision, dedupe_decision, default_dedupe_window_ms,
}
use ledgerdesk.Tickets.{
  Claims, TicketRow, Account, Database, Result, ok, fail, unique_violation, error, ◌>>=◌,
  e_no_account_for_org, e_account_ambiguous, e_field_invalid, visible,
}

pub record TicketDraft : Type 0 where
  pub subject : Text
  pub body : Text

abbrev pub subject_max : ℕ
subject_max = 200

abbrev pub body_max : ℕ
body_max = 8000

-- The checks on a field in their order: that it is not empty, and that it is not too long.
unfoldable pub check_field : Text → ℕ → Result (Unit {0})
check_field field max =
    if length field == 0
    then error e_field_invalid 400
    else if ltb max (length field)
    then error e_field_invalid 400
    else ok tt

abbrev pub trimmed : Option Text → Text
trimmed none = []
trimmed (some field) = trim field

-- `none` is a field that is no string.
unfoldable pub validate_draft : Option Text → Option Text → Result TicketDraft
unfolding check_field
validate_draft subject body =
    let subject = trimmed subject in
    let body = trimmed body in
    check_field subject subject_max >>= λ _.
    check_field body body_max >>= λ _. ok (record { subject = subject; body = body })

pub record Acknowledgement : Type 0 where
  pub tracking_id : Text
  pub status : TicketState
  pub subject : Text
  pub created_at : ℤ
  pub acknowledgement : Text

pub record IntakeOutcome : Type 0 where
  pub acknowledgement : Acknowledgement
  pub collapsed : Bool

abbrev pub acknowledge : TicketRow → Bool → IntakeOutcome
acknowledge ticket collapsed = record {
  acknowledgement = record {
    tracking_id = ticket.id;
    status = ticket.status;
    subject = ticket.subject;
    created_at = ticket.created_at;
    acknowledgement = text "Ticket received. Your tracking number is " ++ (ticket.id ++ text ".");
  };
  collapsed = collapsed;
}

abbrev pub own_accounts : Claims → List Account → List Account
own_accounts claims accounts = select (λ a. text_eq a.org_id claims.org_id) accounts

-- `n` and the account, of the organisation in the claims.
unfoldable pub the_account : List Account → Result Text
the_account [] = error e_no_account_for_org 409
the_account (a ∷ []) = ok a.id
the_account _ = error e_account_ambiguous 409

abbrev pub is_live : TicketState → Bool
is_live status = not (state_eq status resolved || state_eq status closed)

abbrev pub has_digest : Text → Option Text → Bool
has_digest sha none = false
has_digest sha (some digest) = text_eq digest sha

-- `order by created_at desc, id desc limit 1`
abbrev pub comes_first : TicketRow → TicketRow → Bool
comes_first a b =
    ltb_ℤ b.created_at a.created_at || (eq_ℤ a.created_at b.created_at && text_lt b.id a.id)

abbrev pub later : TicketRow → Option TicketRow → Option TicketRow
later r none = some r
later r (some s) = some (if comes_first r s then r else s)

unfoldable pub latest : List TicketRow → Option TicketRow
latest [] = none
latest (r ∷ rs) = later r (latest rs)

abbrev pub is_incumbent : Claims → Text → TicketRow → Bool
is_incumbent claims sha row =
    visible claims row && (has_digest sha row.body_sha256 && is_live row.status)

unfoldable pub held_row : Claims → Text → List TicketRow → Option TicketRow
unfolding latest
held_row claims sha rows = latest (select (is_incumbent claims sha) rows)

abbrev pub incumbent_of : TicketRow → DedupeIncumbent
incumbent_of row = record { id = row.id; anchor_created_at = row.created_at; is_open = true }

-- The row that the insert adds, with the columns that it leaves to the schema's defaults.
abbrev pub new_row : Claims → Text → TicketDraft → Text → Text → ℤ → Text → TicketRow
new_row claims sha draft account new_id now key = record {
  id = new_id;
  org_id = claims.org_id;
  account_id = account;
  customer_id = claims.sub;
  subject = draft.subject;
  body_raw = draft.body;
  status = new;
  created_at = now;
  body_sha256 = some sha;
  dedupe_key = some key;
  sla_due_at = none;
  category = none;
  severity = none;
  sentiment = none;
  confidence = none;
  priority = none;
  escalation_reason = none;
  escalation_clause = none;
}

abbrev pub same_key : TicketRow → TicketRow → Bool
same_key a b = text_eq b.org_id a.org_id && same (a.dedupe_key) (b.dedupe_key)
  where
    same : Option Text → Option Text → Bool
    same (some k) (some l) = text_eq l k
    same _ _ = false

-- The insert, against `unique (org_id, dedupe_key)`: `taken` says that a row has the key.
unfoldable pub place : Bool → TicketRow → Database → Result IntakeOutcome × Database
place true row db = (unique_violation, db)
place false row db = (ok (acknowledge row false), record db { tickets = row ∷ db.tickets })

unfoldable pub insert_ticket : TicketRow → Database → Result IntakeOutcome × Database
unfolding place
insert_ticket row db = place (any (same_key row) db.tickets) row db

abbrev pub submission : Claims → Text → ℤ → Submission
submission claims sha now = record {
  id = text "pending";
  org_id = claims.org_id;
  body_sha256 = sha;
  created_at = now;
}

abbrev pub decision_on : Claims → Text → ℤ → Option TicketRow → DedupeDecision
decision_on claims sha now held =
    dedupe_decision (submission claims sha now) (Option.map incumbent_of held)
      default_dedupe_window_ms

-- `decision.collapse && held`
unfoldable pub file_ticket :
    Database
    → (Text → TicketRow)
    → Option TicketRow
    → DedupeDecision
    → Result IntakeOutcome × Database
unfolding insert_ticket
file_ticket db row none decision = insert_ticket (row decision.key) db
file_ticket db row (some held) decision =
    if decision.collapse
    then (ok (acknowledge held true), db)
    else insert_ticket (row decision.key) db

unfoldable pub with_account :
    Claims
    → Text
    → TicketDraft
    → Text
    → ℤ
    → Database
    → Result Text
    → Result IntakeOutcome × Database
unfolding file_ticket held_row
with_account claims sha draft new_id now db (ok account) =
    let held = held_row claims sha db.tickets in
    file_ticket db (new_row claims sha draft account new_id now) held
      (decision_on claims sha now held)
with_account claims sha draft new_id now db (fail e) = (fail e, db)
with_account claims sha draft new_id now db unique_violation = (unique_violation, db)

-- The `catch`: a key that is taken is answered by the row that holds it, where the session sees it.
unfoldable pub answer_conflict :
    Option TicketRow → Result IntakeOutcome × Database → Result IntakeOutcome × Database
answer_conflict (some held) (unique_violation, db) = (ok (acknowledge held true), db)
answer_conflict _ outcome = outcome

unfoldable pub create_ticket :
    (Text → Text) → Claims → TicketDraft → Text → ℤ → Database → Result IntakeOutcome × Database
unfolding with_account the_account answer_conflict
create_ticket sha256 claims draft new_id now db =
    let sha = sha256 draft.body in
    answer_conflict (held_row claims sha db.tickets)
      (with_account claims sha draft new_id now db (the_account (own_accounts claims db.accounts)))
