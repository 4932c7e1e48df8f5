-- ===== src/Tickets/Examples.antt =====
-- An organisation with one account: tickets filed, sent again, and moved by two consoles.
use mathlib.Core.List.{Memᴰ}
use ledgerdesk.Prelude.{
  ◌≡◌, refl, ◌↔◌, ◌≤◌, some, none, [], ◌∷◌, length, any, true, false, pos, ◌-ℤ◌, Text, text,
  text_eq, is_space, decimal, arith,
}
use ledgerdesk.States.{sent, resolved, agent, customer, find_transition, is_guard_available}
use ledgerdesk.States.Console.{resolve}
use ledgerdesk.Dedupe.{dedupe_key, dedupe_decision, fresh, content_key, int_text}
use ledgerdesk.Tickets.{
  Claims, TicketRow, Database, ok, error, e_transition_stale, e_role_not_permitted, with_status,
  transition_ticket, read_one, visible, check_transition, check_edge, proceed, apply_transition,
  matched, writable, commit_update, set_status,
}
use ledgerdesk.Tickets.Applying.{Applied, transition_ticket-ok}
use ledgerdesk.Tickets.Race.{transition_ticket-stale}
use ledgerdesk.Tickets.Reads.{list_tickets, sort_rows, Entitled, list_tickets_iff}
use ledgerdesk.Tickets.Success.{transition_ticket-succeeds}
use ledgerdesk.Tickets.Intake.{
  TicketDraft, IntakeOutcome, acknowledge, create_ticket, validate_draft, check_field, held_row,
  latest, the_account, with_account, file_ticket, insert_ticket, place, answer_conflict, same_key,
}
use ledgerdesk.Tickets.Intake.Outcome.{Outcome, create_ticket-Outcome, fresh_row}
use ledgerdesk.Tickets.Intake.Keys.{WellKeyed, no_rows, create_ticket-WellKeyed}
use ledgerdesk.Tickets.Intake.Repeat.{create_ticket-repeat}
use ledgerdesk.Tickets.Intake.Accept.{create_ticket-Answered}

abbrev staff : Claims
staff = record { org_id = text "o"; role = agent; sub = text "s" }

abbrev ana : Claims
ana = record { org_id = text "o"; role = customer; sub = text "ana" }

abbrev bob : Claims
bob = record { org_id = text "o"; role = customer; sub = text "bob" }

-- Stands for the digest.
abbrev digest : Text → Text
digest body = text "d"

abbrev words : TicketDraft
words = record { subject = text "s"; body = text "b" }

abbrev empty_desk : Database
empty_desk = record { tickets = []; accounts = record { id = text "acc"; org_id = text "o" } ∷ [] }

abbrev filed_row : TicketRow
filed_row = fresh_row ana (text "d") words (text "acc") (text "t1") (pos 1_000)

abbrev filed_desk : Database
filed_desk = record empty_desk { tickets = filed_row ∷ [] }

abbrev sent_row : TicketRow
sent_row = record filed_row { status = sent }

abbrev sent_desk : Database
sent_desk = record empty_desk { tickets = sent_row ∷ [] }

abbrev resolved_desk : Database
resolved_desk = record empty_desk { tickets = with_status resolved sent_row ∷ [] }

resolved_once :
    transition_ticket staff (text "t1") resolved sent_desk sent_desk
    ≡ (ok (with_status resolved sent_row), resolved_desk)
unfolding transition_ticket read_one visible check_transition check_edge find_transition
    is_guard_available proceed apply_transition matched writable commit_update set_status text_eq
resolved_once = refl

sent_read : read_one staff (text "t1") sent_desk.tickets ≡ some sent_row
unfolding read_one visible text_eq
sent_read = refl

one_holder : length (sent_row ∷ []) ≤ 1
one_holder = omega arith

transition_ticket-ok_example :
    Applied staff
      (text "t1")
      resolved
      sent_desk
      sent_desk
      resolved_desk
      (with_status resolved sent_row)
transition_ticket-ok_example =
    transition_ticket-ok staff (text "t1") resolved sent_desk sent_desk resolved_desk resolved_once

transition_ticket-stale_example :
    transition_ticket staff (text "t1") resolved sent_desk resolved_desk
    ≡ (error e_transition_stale 409, resolved_desk)
unfolding text_eq
transition_ticket-stale_example =
    transition_ticket-stale staff staff (text "t1") resolved resolved sent_desk sent_desk sent_desk
      resolved_desk one_holder sent_read sent_read refl refl resolve resolved_once

transition_ticket-succeeds_example :
    (transition_ticket staff (text "t1") resolved sent_desk sent_desk).0
    ≡ ok (with_status resolved sent_row)
unfolding text_eq
transition_ticket-succeeds_example =
    transition_ticket-succeeds staff (text "t1") resolved sent_desk refl one_holder sent_read
      resolve

not_staff :
    (transition_ticket ana (text "t1") resolved sent_desk sent_desk).0
    ≡ error e_role_not_permitted 403
unfolding transition_ticket
not_staff = refl

list_tickets_iff_example :
    Memᴰ filed_row (list_tickets ana filed_desk)
    ↔ (Memᴰ filed_row filed_desk.tickets × Entitled ana filed_row)
list_tickets_iff_example = list_tickets_iff ana filed_desk filed_row

bob_lists_none : list_tickets bob filed_desk ≡ []
unfolding list_tickets sort_rows visible text_eq
bob_lists_none = refl

create_ticket-Outcome_example :
    Outcome ana
      (text "d")
      words
      (text "t1")
      (pos 1_000)
      empty_desk
      (create_ticket digest ana words (text "t1") (pos 1_000) empty_desk)
create_ticket-Outcome_example =
    create_ticket-Outcome digest ana words (text "t1") (pos 1_000) empty_desk

empty_desk-WellKeyed : WellKeyed digest empty_desk
empty_desk-WellKeyed = record { keyed = tt; distinct = no_rows }

create_ticket-WellKeyed_example :
    WellKeyed digest (create_ticket digest ana words (text "t1") (pos 1_000) empty_desk).1
create_ticket-WellKeyed_example =
    create_ticket-WellKeyed digest ana words (text "t1") (pos 1_000) empty_desk empty_desk-WellKeyed

one_account : the_account empty_desk.accounts ≡ ok (text "acc")
unfolding the_account
one_account = refl

create_ticket-Answered_example :
    (outcome : IntakeOutcome) × ((create_ticket digest ana words
        (text "t1")
        (pos 1_000)
        empty_desk).0
      ≡ ok outcome)
unfolding text_eq
create_ticket-Answered_example =
    create_ticket-Answered digest ana words (text "t1") (pos 1_000) empty_desk empty_desk-WellKeyed
      tt one_account

filed_once :
    create_ticket digest ana words (text "t1") (pos 1_000) empty_desk
    ≡ (ok (acknowledge filed_row false), filed_desk)
unfolding create_ticket with_account the_account answer_conflict file_ticket held_row latest
    insert_ticket place dedupe_decision fresh text_eq
filed_once = refl

create_ticket-repeat_example :
    create_ticket digest ana words (text "t2") (pos 2_000) filed_desk
    ≡ (ok (acknowledge filed_row true), filed_desk)
unfolding ◌-ℤ◌
create_ticket-repeat_example =
    create_ticket-repeat digest ana words words (text "t1") (text "t2") (pos 1_000) (pos 2_000)
      empty_desk filed_desk (acknowledge filed_row false) tt filed_once refl refl (omega arith) refl

bob_sees_none : held_row bob (text "d") filed_desk.tickets ≡ none
unfolding held_row latest visible text_eq
bob_sees_none = refl

key_taken :
    any
      (same_key (fresh_row bob (text "d") words (text "acc") (text "t2") (pos 1_000)))
      filed_desk.tickets
    ≡ true
unfolding text_eq dedupe_key content_key int_text decimal
key_taken = refl

padded : validate_draft (some (text " s ")) (some (text "b")) ≡ ok words
unfolding validate_draft check_field is_space
padded = refl
