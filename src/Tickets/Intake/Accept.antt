-- ===== src/Tickets/Intake/Accept.antt =====
-- `createTicket` where it is answered, and where a key that it does not see is taken.
use ledgerdesk.Prelude.{
  ◌≡◌, refl, ◌∙◌, inl, inr, Bool, true, false, ◌&&◌, Bool-cases, arith, Option, none, some, List,
  [], ◌∷◌, any, All, Text, text_eq, text_eq_iff, ℤ, ltb_ℤ,
}
use ledgerdesk.Dedupe.{dedupe_key}
use ledgerdesk.Dedupe.Keys.{dedupe_key-anchor}
use ledgerdesk.Tickets.{Claims, TicketRow, Database, Result, ok, fail, unique_violation}
use ledgerdesk.Tickets.Intake.{
  TicketDraft, IntakeOutcome, same_key, create_ticket, new_row, held_row, the_account, own_accounts,
  with_account, file_ticket, insert_ticket, place, answer_conflict, decision_on,
}
use ledgerdesk.Tickets.Intake.Outcome.{
  fresh_row, dedupe_decision-fresh_key, dedupe_decision-first_key,
}
use ledgerdesk.Tickets.Intake.Keys.{Keyed, written, earlier, WellKeyed}
use ledgerdesk.Tickets.Intake.Repeat.{Past}

and-false : (a : Bool) → (a && false) ≡ false
and-false true = refl
and-false false = refl

not_yet : {a b : ℤ} → a ≡ b → ltb_ℤ a b ≡ true → false ≡ true
not_yet e h = ground arith

clash : {C : Type 0} → false ≡ true → C
clash h = cc

-- A row that was created earlier has another key.
same_key-earlier :
    (sha256 : Text → Text) (claims : Claims) (draft : TicketDraft) (account new_id : Text) (now : ℤ)
    (r : TicketRow)
    → Keyed sha256 r
    → ltb_ℤ r.created_at now ≡ true
    → same_key (fresh_row claims (sha256 draft.body) draft account new_id now) r ≡ false
same_key-earlier sha256 claims draft account new_id now r (written d e) before =
    rw e
      (elim (Bool-cases (
        text_eq (dedupe_key r.org_id (sha256 r.body_raw) r.created_at)
          (dedupe_key claims.org_id (sha256 draft.body) now))) [
            | inl h ↦ clash (not_yet (dedupe_key-anchor _ _ _ _ _ _ ((text_eq_iff _ _).0 h)) before)
            | inr h ↦ rw h (and-false (text_eq r.org_id claims.org_id))
          ])
same_key-earlier sha256 claims draft account new_id now r (earlier d e) before =
    rw e (and-false (text_eq r.org_id claims.org_id))

any-earlier :
    (sha256 : Text → Text) (claims : Claims) (draft : TicketDraft) (account new_id : Text) (now : ℤ)
    (rows : List TicketRow)
    → All (Keyed sha256) rows
    → Past now rows
    → any (same_key (fresh_row claims (sha256 draft.body) draft account new_id now)) rows ≡ false
any-earlier sha256 claims draft account new_id now [] k p = refl
any-earlier sha256 claims draft account new_id now (r ∷ rs) (k, ks) (p, ps) =
    rw (same_key-earlier sha256 claims draft account new_id now r k p)
      (any-earlier sha256 claims draft account new_id now rs ks ps)

-- An outcome that is no failure.
abbrev Answered : Result IntakeOutcome × Database → Type 0
Answered x = (outcome : IntakeOutcome) × (x.0 ≡ ok outcome)

module _ (claims : Claims) (sha : Text) (draft : TicketDraft) (account new_id : Text) (now : ℤ)
    (db : Database) where
  insert_ticket-Answered :
      (key : Text)
      → any (same_key (fresh_row claims sha draft account new_id now)) db.tickets ≡ false
      → key ≡ dedupe_key claims.org_id sha now
      → Answered (insert_ticket (new_row claims sha draft account new_id now key) db)
  unfolding insert_ticket place
  insert_ticket-Answered key free e = rw (e, free) (_, refl)

  file_ticket-Answered :
      (held : Option TicketRow)
      → any (same_key (fresh_row claims sha draft account new_id now)) db.tickets ≡ false
      → Answered (
          file_ticket db
            (new_row claims sha draft account new_id now)
            held
            (decision_on claims sha now held))
  unfolding file_ticket
  file_ticket-Answered none free =
      insert_ticket-Answered _ free (dedupe_decision-first_key claims sha now)
  file_ticket-Answered (some r) free =
      elim (Bool-cases (decision_on claims sha now (some r)).collapse) [
        | inl on ↦ rw on (_, refl)
        | inr off ↦
            rw off (
              insert_ticket-Answered _ free (dedupe_decision-fresh_key claims sha now (some r) off))
      ]

  with_account-Answered :
      (found : Result Text)
      → found ≡ ok account
      → any (same_key (fresh_row claims sha draft account new_id now)) db.tickets ≡ false
      → Answered (with_account claims sha draft new_id now db found)
  unfolding with_account
  with_account-Answered found e free = rw e (file_ticket-Answered _ free)

answer_conflict-Answered :
    (held : Option TicketRow) (x : Result IntakeOutcome × Database)
    → Answered x
    → Answered (answer_conflict held x)
unfolding answer_conflict
answer_conflict-Answered none x a = a
answer_conflict-Answered (some r) (ok o, db) a = a
answer_conflict-Answered (some r) (fail e, db) a = a
answer_conflict-Answered (some r) (unique_violation, db) a = (_, refl)

-- Where the rows are keyed by their own body and instant, the clock is ahead of every row, and the
-- session's organisation has one account, a submission is answered, with a new ticket or an old.
pub create_ticket-Answered :
    (sha256 : Text → Text) (claims : Claims) (draft : TicketDraft) (new_id : Text) (now : ℤ)
    (db : Database) {account : Text}
    → WellKeyed sha256 db
    → Past now db.tickets
    → the_account (own_accounts claims db.accounts) ≡ ok account
    → (outcome : IntakeOutcome) × ((create_ticket sha256 claims draft new_id now db).0 ≡ ok outcome)
unfolding create_ticket
create_ticket-Answered sha256 claims draft new_id now db {account} w past one =
    answer_conflict-Answered _ _ (
      with_account-Answered claims (sha256 draft.body) draft account new_id now db _ one
        (any-earlier sha256 claims draft account new_id now db.tickets w.keyed past))

file_ticket-conflict :
    (claims : Claims) (sha : Text) (draft : TicketDraft) (account new_id : Text) (now : ℤ)
    (db : Database) (held : Option TicketRow)
    → held ≡ none
    → any (same_key (fresh_row claims sha draft account new_id now)) db.tickets ≡ true
    → file_ticket db
        (new_row claims sha draft account new_id now)
        held
        (decision_on claims sha now held)
      ≡ (unique_violation, db)
unfolding file_ticket insert_ticket place
file_ticket-conflict claims sha draft account new_id now db none h taken =
    rw (dedupe_decision-first_key claims sha now, taken) refl
file_ticket-conflict claims sha draft account new_id now db (some r) h taken = cc

with_account-conflict :
    (claims : Claims) (sha : Text) (draft : TicketDraft) (new_id : Text) (now : ℤ) (db : Database)
    (found : Result Text) {account : Text}
    → found ≡ ok account
    → held_row claims sha db.tickets ≡ none
    → any (same_key (fresh_row claims sha draft account new_id now)) db.tickets ≡ true
    → with_account claims sha draft new_id now db found ≡ (unique_violation, db)
unfolding with_account
with_account-conflict claims sha draft new_id now db found {account} e unseen taken =
    rw e (file_ticket-conflict claims sha draft account new_id now db _ unseen taken)

unanswered :
    (held : Option TicketRow) {x : Result IntakeOutcome × Database}
    → held ≡ none
    → answer_conflict held x ≡ x
unfolding answer_conflict
unanswered none h = refl
unanswered (some r) h = cc

-- Where the session's organisation has one account, and no live row of the same body is seen by it,
-- but a row has the key of this instant, the submission is rejected with the database's own unique
-- violation.
pub create_ticket-unseen_conflict :
    (sha256 : Text → Text) (claims : Claims) (draft : TicketDraft) (new_id : Text) (now : ℤ)
    (db : Database) {account : Text}
    → the_account (own_accounts claims db.accounts) ≡ ok account
    → held_row claims (sha256 draft.body) db.tickets ≡ none
    → any (same_key (fresh_row claims (sha256 draft.body) draft account new_id now)) db.tickets
      ≡ true
    → create_ticket sha256 claims draft new_id now db ≡ (unique_violation, db)
unfolding create_ticket
create_ticket-unseen_conflict sha256 claims draft new_id now db one unseen taken =
    unanswered _ unseen
    ∙ with_account-conflict claims (sha256 draft.body) draft new_id now db _ one unseen taken
