-- ===== src/Tickets/Race.antt =====
-- `transitionTicket` from two consoles on one ticket.
use ledgerdesk.Prelude.{
  ◌≤◌, ◌≡◌, refl, ap, ◌∙◌, inl, inr, Bool, true, false, not, arith, Option, some, List, [], ◌∷◌,
  select, length, Bool-cases, if◌then◌else◌, Text, text_eq,
}
use ledgerdesk.States.{TicketState, UserRole, Transition, is_available_to, state_eq}
use ledgerdesk.States.Console.{ConsoleEdge, is_available_to_iff, resolve, close, supervise}
use ledgerdesk.Tickets.{
  Claims, TicketRow, Database, Result, ok, error, e_transition_stale, e_role_not_permitted,
  is_staff, read_one, matched, with_status, set_status, check_edge, check_transition, commit_update,
  proceed, apply_transition, transition_ticket,
}
use ledgerdesk.Tickets.Applying.{transition_ticket-ok}

-- The rows that carry an identifier: one at most, as `id` is the primary key.
abbrev pub holders : Text → List TicketRow → List TicketRow
holders id rows = select (λ r. text_eq r.id id) rows

-- Where no row carries the identifier, no update matches.
pub unmatched :
    (c : Claims) (id : Text) (s : TicketState) (rows : List TicketRow)
    → holders id rows ≡ []
    → select (matched c id s) rows ≡ []
unfolding matched
unmatched c id s [] h = refl
unmatched c id s (r ∷ rs) h = ground (arith, unmatched c id s rs)

set_status-unheld :
    (c : Claims) (id : Text) (from to : TicketState) (rows : List TicketRow)
    → holders id rows ≡ []
    → holders id (set_status c id from to rows) ≡ []
unfolding set_status matched
set_status-unheld c id from to [] h = refl
set_status-unheld c id from to (r ∷ rs) h = ground (arith, set_status-unheld c id from to rs)

-- The rest of a list whose first element is the one holder.
pub none_left : {A : Type 0} (xs : List A) → length xs ≤ 0 → xs ≡ []
none_left [] h = refl
none_left (x ∷ xs) h = absurd (omega arith)

-- An update of another identifier, and one from another state.
pub other_id :
    (c : Claims) (id : Text) (s : TicketState) (r : TicketRow)
    → text_eq r.id id ≡ false
    → matched c id s r ≡ false
unfolding matched
other_id c id s r e = ground arith

other_state :
    (c : Claims) (id : Text) (from to : TicketState) (r : TicketRow)
    → state_eq to from ≡ false
    → matched c id from (with_status to r) ≡ false
unfolding matched
other_state c id from to r e = ground arith

moved_on :
    (c d : Claims) (id : Text) (from to : TicketState) (rows : List TicketRow) {old : TicketRow}
    → state_eq to from ≡ false
    → length (holders id rows) ≤ 1
    → select (matched c id from) rows ≡ old ∷ []
    → select (matched d id from) (set_status c id from to rows) ≡ []
unfolding set_status
moved_on c d id from to [] ne one h = refl
moved_on c d id from to (r ∷ rs) ne one h = elim (Bool-cases (text_eq r.id id)) [
  | inl e ↦
      let one' : length (r ∷ holders id rs) ≤ 1 = rw e at one in
      let off : holders id rs ≡ [] = none_left _ (omega arith) in
      let gone = unmatched c id from rs off in
      let left =
        unmatched d id from (set_status c id from to rs) (set_status-unheld c id from to rs off) in
      elim (Bool-cases (matched c id from r)) [
        | inl hit ↦ rw (hit, other_state d id from to r ne) left
        | inr miss ↦ absurd (cc)
      ]
  | inr e ↦
      rw (other_id c id from r e, other_id d id from r e)
        (moved_on c d id from to rs ne (rw e at one) (rw (other_id c id from r e) at h))
]

ConsoleEdge-moves :
    {from to : TicketState} {role : UserRole} → ConsoleEdge from to role → state_eq to from ≡ false
ConsoleEdge-moves resolve = refl
ConsoleEdge-moves close = refl
ConsoleEdge-moves supervise = refl

check_edge-passes :
    (claims : Claims) (current : TicketRow) (t : Transition)
    → is_available_to t claims.role ≡ true
    → check_edge claims current (some t) ≡ ok (current, t)
unfolding check_edge is_available_to
check_edge-passes claims current t h = ground arith

-- What the checks let through.
check_transition-passes :
    (claims : Claims) (current : TicketRow) (to : TicketState)
    → ConsoleEdge current.status to claims.role
    → (t : Transition) × (check_transition claims (some current) to ≡ ok (current, t))
unfolding check_transition
check_transition-passes claims current to e =
    let (t, found, available) = (is_available_to_iff current.status to claims.role).1 e in
    (t, rw found (check_edge-passes claims current t available))

gate_open :
    (staff : Bool) (db : Database) (x : Result TicketRow × Database)
    → staff ≡ true
    → (if not staff then (error e_role_not_permitted 403, db) else x) ≡ x
gate_open true db x h = refl
gate_open false db x h = cc

proceed-apply :
    (claims : Claims) (id : Text) (to : TicketState) (db : Database) (found : Option TicketRow)
    {current : TicketRow}
    → found ≡ some current
    → ConsoleEdge current.status to claims.role
    → proceed claims id to db (check_transition claims found to)
      ≡ apply_transition claims id current.status to db
unfolding proceed
proceed-apply claims id to db found {current} read e =
    let (t, passes) = check_transition-passes claims current to e in rw (read, passes) refl

-- A console that passes the checks updates the row under the status that it has read.
pub transition_ticket-apply :
    (claims : Claims) (id : Text) (to : TicketState) (seen db : Database) {current : TicketRow}
    → is_staff claims.role ≡ true
    → read_one claims id seen.tickets ≡ some current
    → ConsoleEdge current.status to claims.role
    → transition_ticket claims id to seen db ≡ apply_transition claims id current.status to db
unfolding transition_ticket
transition_ticket-apply claims id to seen db staff read e =
    gate_open (is_staff claims.role) db _ staff ∙ proceed-apply claims id to db _ read e

same_row : {a b : TicketRow} {x : Option TicketRow} → x ≡ some a → x ≡ some b → a ≡ b
same_row h k = ground arith

apply_transition-stale :
    (claims : Claims) (id : Text) (from to : TicketState) (db : Database)
    → select (matched claims id from) db.tickets ≡ []
    → apply_transition claims id from to db ≡ (error e_transition_stale 409, db)
unfolding apply_transition commit_update
apply_transition-stale claims id from to db gone = rw gone refl

-- Two consoles have read one ticket in the same state, the second is staff and may take its own edge
-- from there, and no two rows share the ticket's identifier. Once the first transition is applied,
-- the second is refused as stale, and changes nothing.
pub transition_ticket-stale :
    (c d : Claims) (id : Text) (to to' : TicketState) (seen_c seen_d db db' : Database)
    {row r s : TicketRow}
    → length (holders id db.tickets) ≤ 1
    → read_one c id seen_c.tickets ≡ some r
    → read_one d id seen_d.tickets ≡ some s
    → s.status ≡ r.status
    → is_staff d.role ≡ true
    → ConsoleEdge s.status to' d.role
    → transition_ticket c id to seen_c db ≡ (ok row, db')
    → transition_ticket d id to' seen_d db' ≡ (error e_transition_stale 409, db')
transition_ticket-stale c d id to to' seen_c seen_d db db' {row} {r} {s} one read_c read_d same
      staff edge first =
    let a = transition_ticket-ok c id to seen_c db db' first in
    let current : s.status ≡ a.current.status =
      same ∙ ap (λ (x : TicketRow). x.status) (same_row read_c a.read) in
    transition_ticket-apply d id to' seen_d db' staff read_d edge
    ∙ apply_transition-stale d id s.status to' db' (
        rw (a.written, current)
          (moved_on c d id a.current.status to db.tickets (ConsoleEdge-moves a.allowed) one a.only))
