-- ===== src/Tickets/Applying.antt =====
-- What `transitionTicket` does to the database, and what it leaves.
use ledgerdesk.Prelude.{
  ◌≡◌, refl, ap, ◌∙◌, Bool, true, false, not, arith, Option, none, some, List, [], ◌∷◌, select,
  if◌then◌else◌, Text, text_eq,
}
use ledgerdesk.States.{TicketState, Transition, find_transition, is_available_to, state_eq}
use ledgerdesk.States.Console.{ConsoleEdge, is_available_to_iff}
use ledgerdesk.Tickets.{
  Claims, TicketRow, Database, Result, ok, fail, unique_violation, AppError, error,
  e_role_not_permitted, is_staff, read_one, matched, with_status, set_status, check_edge,
  check_transition, commit_update, proceed, transition_ticket,
}

pub state_eq_sound : (s t : TicketState) → state_eq s t ≡ true → s ≡ t
state_eq_sound s t h = ground arith

-- The rows of every other identifier stand as they were.
abbrev pub others : Text → List TicketRow → List TicketRow
others id rows = select (λ r. not (text_eq r.id id)) rows

set_status-others :
    (claims : Claims) (id : Text) (from to : TicketState) (rows : List TicketRow)
    → others id (set_status claims id from to rows) ≡ others id rows
unfolding set_status matched
set_status-others claims id from to [] = refl
set_status-others claims id from to (r ∷ rs) =
    ground (arith, set_status-others claims id from to rs)

-- A transition that is applied.
pub record Applied (claims : Claims) (id : Text) (to : TicketState) (seen db db' : Database)
    (row : TicketRow) : Type 0 where
  pub staff : is_staff claims.role ≡ true
  pub current : TicketRow
  pub read : read_one claims id seen.tickets ≡ some current
  pub allowed : ConsoleEdge current.status to claims.role
  pub old : TicketRow
  pub only : select (matched claims id current.status) db.tickets ≡ old ∷ []
  pub moved : row ≡ with_status to old
  pub others_kept : others id db'.tickets ≡ others id db.tickets
  pub written : db' ≡ record db { tickets = set_status claims id current.status to db.tickets }

-- The role check in front.
gate-ok :
    (staff : Bool) (db : Database) (x : Result TicketRow × Database) {row : TicketRow}
    {db' : Database}
    → (if not staff then (error e_role_not_permitted 403, db) else x) ≡ (ok row, db')
    → (staff ≡ true) × (x ≡ (ok row, db'))
gate-ok true db x h = (refl, h)
gate-ok false db x h = cc

gate-kept :
    (staff : Bool) (db : Database) (x : Result TicketRow × Database) {e : AppError}
    → ((c : AppError) → x.0 ≡ fail c → x.1 ≡ db)
    → (if not staff then (error e_role_not_permitted 403, db) else x).0 ≡ fail e
    → (if not staff then (error e_role_not_permitted 403, db) else x).1 ≡ db
gate-kept true db x k h = k _ h
gate-kept false db x k h = refl

check_edge-ok :
    (claims : Claims) (current : TicketRow) (found : Option Transition) {r : TicketRow}
    {t : Transition}
    → check_edge claims current found ≡ ok (r, t)
    → (current ≡ r) × (found ≡ some t) × (is_available_to t claims.role ≡ true)
unfolding check_edge is_available_to
check_edge-ok claims current none h = cc
check_edge-ok claims current (some u) h = ground arith

check_transition-ok :
    (claims : Claims) (found : Option TicketRow) (to : TicketState) {r : TicketRow} {t : Transition}
    → check_transition claims found to ≡ ok (r, t)
    → (found ≡ some r) × ConsoleEdge r.status to claims.role
unfolding check_transition
check_transition-ok claims none to h = cc
check_transition-ok claims (some current) to {r} {t} h =
    let (same, found, available) =
      check_edge-ok claims current (find_transition current.status to) h in
    let edge = (is_available_to_iff current.status to claims.role).0 (t, found, available) in
    (ap some same, rw same at edge)

commit_update-ok :
    (claims : Claims) (id : Text) (from to : TicketState) (db db' : Database)
    (rows : List TicketRow) {row : TicketRow}
    → commit_update claims id from to db rows ≡ (ok row, db')
    → (old : TicketRow) × (rows ≡ old ∷ [])
      × (row ≡ with_status to old)
      × (db' ≡ record db { tickets = set_status claims id from to db.tickets })
unfolding commit_update
commit_update-ok claims id from to db db' [] h = cc
commit_update-ok claims id from to db db' (old ∷ []) h = (old, refl, ground arith, ground arith)
commit_update-ok claims id from to db db' (old ∷ next ∷ rows) h = cc

proceed-ok :
    (claims : Claims) (id : Text) (to : TicketState) (db db' : Database)
    (checked : Result (TicketRow × Transition)) {row : TicketRow}
    → proceed claims id to db checked ≡ (ok row, db')
    → (current : TicketRow) × (t : Transition) × (checked ≡ ok (current, t))
      × (commit_update claims id current.status to db
            (select (matched claims id current.status) db.tickets)
          ≡ (ok row, db'))
unfolding proceed
proceed-ok claims id to db db' (ok (current, t)) h = (current, t, refl, h)
proceed-ok claims id to db db' (fail e) h = cc
proceed-ok claims id to db db' unique_violation h = cc

-- A transition that succeeds is taken by staff, on an edge that a console may take in that role
-- from the state that was read; it updates the one row that it matches, to the state asked for,
-- and leaves the rows of all other identifiers and all accounts.
pub transition_ticket-ok :
    (claims : Claims) (id : Text) (to : TicketState) (seen db db' : Database) {row : TicketRow}
    → transition_ticket claims id to seen db ≡ (ok row, db')
    → Applied claims id to seen db db' row
unfolding transition_ticket
transition_ticket-ok claims id to seen db db' {row} h =
    let (staff, rest) = gate-ok (is_staff claims.role) db _ h in
    let (current, t, checked, applied) = proceed-ok claims id to db db' _ rest in
    let (read, edge) = check_transition-ok claims _ to checked in
    let (old, only, moved, written) =
      commit_update-ok claims id current.status to db db' _ applied in
    record {
      staff = staff;
      current = current;
      read = read;
      allowed = edge;
      old = old;
      only = only;
      moved = moved;
      others_kept =
          ap (λ (d : Database). others id d.tickets) written
          ∙ set_status-others claims id current.status to db.tickets;
      written = written;
    }

commit_update-kept :
    (claims : Claims) (id : Text) (from to : TicketState) (db : Database) (rows : List TicketRow)
    {e : AppError}
    → (commit_update claims id from to db rows).0 ≡ fail e
    → (commit_update claims id from to db rows).1 ≡ db
unfolding commit_update
commit_update-kept claims id from to db [] h = refl
commit_update-kept claims id from to db (old ∷ []) h = cc
commit_update-kept claims id from to db (old ∷ next ∷ rows) h = refl

proceed-kept :
    (claims : Claims) (id : Text) (to : TicketState) (db : Database)
    (checked : Result (TicketRow × Transition)) {e : AppError}
    → (proceed claims id to db checked).0 ≡ fail e
    → (proceed claims id to db checked).1 ≡ db
unfolding proceed
proceed-kept claims id to db (ok (current, t)) h =
    commit_update-kept claims id current.status to db _ h
proceed-kept claims id to db (fail c) h = refl
proceed-kept claims id to db unique_violation h = refl

-- A transition that is refused leaves the database as it was.
pub transition_ticket-refused :
    (claims : Claims) (id : Text) (to : TicketState) (seen db : Database) {e : AppError}
    → (transition_ticket claims id to seen db).0 ≡ fail e
    → (transition_ticket claims id to seen db).1 ≡ db
unfolding transition_ticket
transition_ticket-refused claims id to seen db h =
    gate-kept (is_staff claims.role) db _ (λ c. proceed-kept claims id to db _) h
