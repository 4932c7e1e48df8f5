-- ===== src/Tickets/Intake/Outcome.antt =====
-- The four ways in which `createTicket` ends.
use ledgerdesk.Prelude.{
  ◌≡◌, refl, inl, inr, Bool, true, false, Bool-cases, arith, Option, none, some, ◌∷◌, any, Text, ℤ,
}
use ledgerdesk.Dedupe.{dedupe_decision, dedupe_key}
use ledgerdesk.Tickets.{Claims, TicketRow, Database, AppError, Result, ok, fail, unique_violation}
use ledgerdesk.Tickets.Intake.{
  TicketDraft, IntakeOutcome, acknowledge, the_account, own_accounts, held_row, new_row, same_key,
  place, insert_ticket, decision_on, file_ticket, with_account, answer_conflict, create_ticket,
}

-- The row of a submission that opens a group: its key names the instant of its own creation.
abbrev pub fresh_row : Claims → Text → TicketDraft → Text → Text → ℤ → TicketRow
fresh_row claims sha draft account new_id now =
    new_row claims sha draft account new_id now (dedupe_key claims.org_id sha now)

pub data Outcome (claims : Claims) (sha : Text) (draft : TicketDraft) (new_id : Text) (now : ℤ)
    (db : Database) : Result IntakeOutcome × Database → Type 0 where
  refused : (e : AppError) → Outcome claims sha draft new_id now db (fail e, db)
  conflicted : Outcome claims sha draft new_id now db (unique_violation, db)
  folded_into :
      (held : TicketRow)
      → held_row claims sha db.tickets ≡ some held
      → Outcome claims sha draft new_id now db (ok (acknowledge held true), db)
  filed :
      (account : Text)
      → the_account (own_accounts claims db.accounts) ≡ ok account
      → any (same_key (fresh_row claims sha draft account new_id now)) db.tickets ≡ false
      → Outcome claims sha draft new_id now db (
        ok (acknowledge (fresh_row claims sha draft account new_id now) false),
        record db { tickets = fresh_row claims sha draft account new_id now ∷ db.tickets },
      )

pub dedupe_decision-first_key :
    (claims : Claims) (sha : Text) (now : ℤ)
    → (decision_on claims sha now none).key ≡ dedupe_key claims.org_id sha now
unfolding dedupe_decision
dedupe_decision-first_key claims sha now = refl

-- A decision that does not fold keys the submission by its own instant.
pub dedupe_decision-fresh_key :
    (claims : Claims) (sha : Text) (now : ℤ) (held : Option TicketRow)
    → (decision_on claims sha now held).collapse ≡ false
    → (decision_on claims sha now held).key ≡ dedupe_key claims.org_id sha now
unfolding dedupe_decision
dedupe_decision-fresh_key claims sha now none h = refl
dedupe_decision-fresh_key claims sha now (some r) h = ground arith

module _ (claims : Claims) (sha : Text) (draft : TicketDraft) (new_id : Text) (now : ℤ) where
  place-Outcome :
      (account : Text) (db : Database) (taken : Bool)
      → the_account (own_accounts claims db.accounts) ≡ ok account
      → any (same_key (fresh_row claims sha draft account new_id now)) db.tickets ≡ taken
      → Outcome claims sha draft new_id now db
          (place taken (fresh_row claims sha draft account new_id now) db)
  unfolding place
  place-Outcome account db true one h = conflicted
  place-Outcome account db false one h = filed account one h

  insert_ticket-Outcome :
      (account key : Text) (db : Database)
      → the_account (own_accounts claims db.accounts) ≡ ok account
      → key ≡ dedupe_key claims.org_id sha now
      → Outcome claims sha draft new_id now db
          (insert_ticket (new_row claims sha draft account new_id now key) db)
  unfolding insert_ticket
  insert_ticket-Outcome account key db one h = rw h (place-Outcome account db _ one refl)

  file_ticket-Outcome :
      (account : Text) (db : Database) (held : Option TicketRow)
      → the_account (own_accounts claims db.accounts) ≡ ok account
      → held_row claims sha db.tickets ≡ held
      → Outcome claims sha draft new_id now db (
          file_ticket db
            (new_row claims sha draft account new_id now)
            held
            (decision_on claims sha now held))
  unfolding file_ticket
  file_ticket-Outcome account db none one h =
      insert_ticket-Outcome account _ db one (dedupe_decision-first_key claims sha now)
  file_ticket-Outcome account db (some r) one h =
      elim (Bool-cases (decision_on claims sha now (some r)).collapse) [
        | inl on ↦ rw on (folded_into r h)
        | inr off ↦ rw off (
            insert_ticket-Outcome account _ db one
              (dedupe_decision-fresh_key claims sha now (some r) off))
      ]

  with_account-Outcome :
      (db : Database) (account : Result Text)
      → the_account (own_accounts claims db.accounts) ≡ account
      → Outcome claims sha draft new_id now db (with_account claims sha draft new_id now db account)
  unfolding with_account
  with_account-Outcome db (ok account) one = file_ticket-Outcome account db _ one refl
  with_account-Outcome db (fail e) one = refused e
  with_account-Outcome db unique_violation one = conflicted

  answer_conflict-Outcome :
      (db : Database) (held : Option TicketRow) {outcome : Result IntakeOutcome × Database}
      → held_row claims sha db.tickets ≡ held
      → Outcome claims sha draft new_id now db outcome
      → Outcome claims sha draft new_id now db (answer_conflict held outcome)
  unfolding answer_conflict
  answer_conflict-Outcome db (some r) h (refused e) = refused e
  answer_conflict-Outcome db (some r) h conflicted = folded_into r h
  answer_conflict-Outcome db (some r) h (folded_into held k) = folded_into held k
  answer_conflict-Outcome db (some r) h (filed account one k) = filed account one k
  answer_conflict-Outcome db none h o = o

-- Whatever an intake is given, it is refused, or hits a taken key, or is answered by the live row
-- of the same body that the session sees, each time without a change to the database; or it adds
-- one row to it, in the session's organisation and under its customer, with a key of its own that
-- names the row's own instant.
pub create_ticket-Outcome :
    (sha256 : Text → Text) (claims : Claims) (draft : TicketDraft) (new_id : Text) (now : ℤ)
    (db : Database)
    → Outcome claims
        (sha256 draft.body)
        draft
        new_id
        now
        db
        (create_ticket sha256 claims draft new_id now db)
unfolding create_ticket
create_ticket-Outcome sha256 claims draft new_id now db =
    answer_conflict-Outcome claims (sha256 draft.body) draft new_id now db _ refl
      (with_account-Outcome claims (sha256 draft.body) draft new_id now db _ refl)
