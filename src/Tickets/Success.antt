-- ===== src/Tickets/Success.antt =====
-- When `transitionTicket` applies its transition.
use mathlib.Core.Path.{subst}
use ledgerdesk.Prelude.{
  ◌≤◌, ◌≡◌, ◌≢◌, refl, sym, ap, ◌∙◌, inl, inr, Bool, true, false, ◌&&◌, arith, Option, none, some,
  List, [], ◌∷◌, select, length, Bool-cases, if◌then◌else◌, Text, text_eq,
}
use ledgerdesk.States.{TicketState, state_eq}
use ledgerdesk.States.Console.{ConsoleEdge}
use ledgerdesk.Tickets.{
  Claims, TicketRow, Database, Result, ok, is_staff, read_one, matched, with_status, commit_update,
  apply_transition, transition_ticket, visible, writable,
}
use ledgerdesk.Tickets.Race.{holders, none_left, other_id, unmatched, transition_ticket-apply}

state_eq_refl : (s : TicketState) → state_eq s s ≡ true
state_eq_refl s = ground arith

read_one-skip :
    (claims : Claims) (id : Text) (r : TicketRow) (rs : List TicketRow)
    → text_eq r.id id ≡ false
    → read_one claims id (r ∷ rs) ≡ read_one claims id rs
unfolding read_one
read_one-skip claims id r rs e = ground arith

unread :
    (claims : Claims) (id : Text) (rs : List TicketRow)
    → holders id rs ≡ []
    → read_one claims id rs ≡ none
unfolding read_one
unread claims id [] h = refl
unread claims id (r ∷ rs) h = ground (arith, unread claims id rs)

picked :
    (b : Bool) {r current : TicketRow} {o : Option TicketRow}
    → o ≡ none
    → (if b then some r else o) ≡ some current
    → (b ≡ true) × (r ≡ current)
picked true none_after h = (refl, ground arith)
picked false none_after h = cc

left_true : (a b : Bool) → (a && b) ≡ true → a ≡ true
left_true a b h = ground arith

read_one-head :
    (claims : Claims) (id : Text) (r current : TicketRow) (rs : List TicketRow)
    → read_one claims id rs ≡ none
    → read_one claims id (r ∷ rs) ≡ some current
    → (visible claims r ≡ true) × (r ≡ current)
unfolding read_one
read_one-head claims id r current rs none_after read =
    let (hit, same) = picked (visible claims r && text_eq r.id id) none_after read in
    (left_true (visible claims r) (text_eq r.id id) hit, same)

all_true :
    (a b c d : Bool) → a ≡ true → b ≡ true → c ≡ true → d ≡ true → ((a && b) && (c && d)) ≡ true
all_true true true true true h k l m = refl
all_true a b c d h k l m = ground arith

matched-own :
    (claims : Claims) (id : Text) (r : TicketRow)
    → is_staff claims.role ≡ true
    → text_eq r.id id ≡ true
    → visible claims r ≡ true
    → matched claims id r.status r ≡ true
unfolding matched writable
matched-own claims id r staff e seen =
    all_true (visible claims r) (is_staff claims.role) (text_eq r.id id)
      (state_eq r.status r.status) seen staff e (state_eq_refl r.status)

no_row : {current : TicketRow} (claims : Claims) (id : Text) → read_one claims id [] ≢ some current
unfolding read_one
no_row claims id h = cc

-- What staff read under a unique identifier is what their update matches.
matched-read :
    (claims : Claims) (id : Text) (rows : List TicketRow) {current : TicketRow}
    → is_staff claims.role ≡ true
    → length (holders id rows) ≤ 1
    → read_one claims id rows ≡ some current
    → select (matched claims id current.status) rows ≡ current ∷ []
matched-read claims id [] staff one read = absurd (no_row claims id read)
matched-read claims id (r ∷ rs) {current} staff one read = elim (Bool-cases (text_eq r.id id)) [
  | inl e ↦
      let one' : length (r ∷ holders id rs) ≤ 1 = rw e at one in
      let off : holders id rs ≡ [] = none_left _ (omega arith) in
      let (seen, same) = read_one-head claims id r current rs (unread claims id rs off) read in
      subst (λ (x : TicketRow). select (matched claims id x.status) (r ∷ rs) ≡ x ∷ []) same
        (rw (matched-own claims id r staff e seen, unmatched claims id r.status rs off) refl)
  | inr e ↦
      let later =
        matched-read claims id rs staff (rw e at one)
          (sym (read_one-skip claims id r rs e) ∙ read) in
      rw (other_id claims id current.status r e) later
]

applied :
    (claims : Claims) (id : Text) (from to : TicketState) (db : Database) {row : TicketRow}
    → select (matched claims id from) db.tickets ≡ row ∷ []
    → (apply_transition claims id from to db).0 ≡ ok (with_status to row)
unfolding apply_transition commit_update
applied claims id from to db h = rw h refl

-- Staff who see a ticket whose identifier is unique, and may take an edge from its state in their
-- role, get the transition applied: the ticket is returned in the new state.
pub transition_ticket-succeeds :
    (claims : Claims) (id : Text) (to : TicketState) (db : Database) {current : TicketRow}
    → is_staff claims.role ≡ true
    → length (holders id db.tickets) ≤ 1
    → read_one claims id db.tickets ≡ some current
    → ConsoleEdge current.status to claims.role
    → (transition_ticket claims id to db db).0 ≡ ok (with_status to current)
transition_ticket-succeeds claims id to db {current} staff one read edge =
    ap (λ (x : Result TicketRow × Database). x.0)
      (transition_ticket-apply claims id to db db staff read edge)
    ∙ applied claims id current.status to db (matched-read claims id db.tickets staff one read)
