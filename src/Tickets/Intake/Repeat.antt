-- ===== src/Tickets/Intake/Repeat.antt =====
-- `createTicket` on a submission that is sent again.
use ledgerdesk.Prelude.{
  ◌≡◌, refl, sym, ap, ◌∙◌, inl, inr, Bool, true, false, ◌&&◌, ◌||◌, Bool-cases, arith, Option, none,
  some, List, [], ◌∷◌, All, select, Text, text_eq_refl, ℤ, ◌-ℤ◌, ◌≤ℤ◌, ltb_ℤ, if◌then◌else◌,
}
use ledgerdesk.Dedupe.{default_dedupe_window_ms}
use ledgerdesk.Dedupe.Decision.{Repeats, dedupe_decision-collapse_iff}
use ledgerdesk.Tickets.{Claims, TicketRow, Database, Result, ok, visible, is_staff}
use ledgerdesk.Tickets.Intake.{
  TicketDraft, IntakeOutcome, create_ticket, acknowledge, new_row, held_row, latest, is_incumbent,
  comes_first, the_account, own_accounts, with_account, file_ticket, answer_conflict, decision_on,
  submission, incumbent_of, later,
}
use ledgerdesk.Tickets.Intake.Outcome.{
  Outcome, refused, conflicted, folded_into, filed, create_ticket-Outcome, fresh_row,
}

same_row : {r s : TicketRow} → some r ≡ some s → r ≡ s
same_row h = ground arith

-- Every row was created before the instant.
abbrev pub Past : ℤ → List TicketRow → Type 0
Past now rows = All (λ (r : TicketRow). ltb_ℤ r.created_at now ≡ true) rows

select-Past :
    (p : TicketRow → Bool) (now : ℤ) (rows : List TicketRow)
    → Past now rows
    → Past now (select p rows)
select-Past p now [] h = tt
select-Past p now (r ∷ rs) (k, h) = one (p r) (select-Past p now rs h)
  where
    one :
        (b : Bool) → Past now (select p rs) → Past now (if b then r ∷ select p rs else select p rs)
    one true t = (k, t)
    one false t = t

-- The newest of rows that were created before an instant was, too.
latest-Past :
    (now : ℤ) (rows : List TicketRow) (s : TicketRow)
    → Past now rows
    → latest rows ≡ some s
    → ltb_ℤ s.created_at now ≡ true
unfolding latest
latest-Past now [] s h e = cc
latest-Past now (r ∷ rs) s (k, h) e = of_two (latest rs) (λ t. latest-Past now rs t h) e
  where
    of_two :
        (o : Option TicketRow)
        → ((t : TicketRow) → o ≡ some t → ltb_ℤ t.created_at now ≡ true)
        → later r o ≡ some s
        → ltb_ℤ s.created_at now ≡ true
    of_two none f e = rw (← same_row e) k
    of_two (some t) f e = elim (Bool-cases (comes_first r t)) [
      | inl b ↦ rw (← same_row (rw b at e)) k
      | inr b ↦ rw (← same_row (rw b at e)) (f t refl)
    ]

-- Before a row that was created last, the others do not matter.
later-Past :
    (r : TicketRow) (o : Option TicketRow)
    → ((t : TicketRow) → o ≡ some t → ltb_ℤ t.created_at r.created_at ≡ true)
    → later r o ≡ some r
later-Past r none f = refl
later-Past r (some t) f = rw (comes_before (f t refl)) refl
  where
    comes_before : ltb_ℤ t.created_at r.created_at ≡ true → comes_first r t ≡ true
    comes_before k = ground arith

-- The row of a session's own submission is the newest that it sees of its body.
held_row-own :
    (claims : Claims) (sha : Text) (row : TicketRow) (rows : List TicketRow)
    → is_incumbent claims sha row ≡ true
    → Past row.created_at rows
    → held_row claims sha (row ∷ rows) ≡ some row
unfolding held_row latest
held_row-own claims sha row rows own past = rw own (
    later-Past row (latest (select (is_incumbent claims sha) rows))
      (λ t. latest-Past row.created_at _ t (select-Past (is_incumbent claims sha) _ rows past)))

fresh_row-is_incumbent :
    (claims : Claims) (sha : Text) (draft : TicketDraft) (account new_id : Text) (now : ℤ)
    → is_incumbent claims sha (fresh_row claims sha draft account new_id now) ≡ true
unfolding visible
fresh_row-is_incumbent claims sha draft account new_id now =
    rw (text_eq_refl claims.org_id, text_eq_refl claims.sub, text_eq_refl sha)
      (either (is_staff claims.role))
  where
    either : (b : Bool) → ((b || true) && true) ≡ true
    either true = refl
    either false = refl

file_ticket-folds :
    (db : Database) (row : Text → TicketRow) (claims : Claims) (sha : Text) (now : ℤ)
    {r : TicketRow} (held : Option TicketRow)
    → held ≡ some r
    → r.created_at ≤ℤ now
    → ltb_ℤ (now -ℤ r.created_at) default_dedupe_window_ms ≡ true
    → file_ticket db row held (decision_on claims sha now held) ≡ (ok (acknowledge r true), db)
unfolding file_ticket
file_ticket-folds db row claims sha now {r} held h after inside =
    let repeats : Repeats (submission claims sha now) (incumbent_of r) default_dedupe_window_ms =
      record { still_open = refl; not_earlier = after; inside = inside } in
    rw
      (
        h,
        (dedupe_decision-collapse_iff (submission claims sha now) (incumbent_of r)
              default_dedupe_window_ms).1
            repeats,
      )
      refl

answers :
    (held : Option TicketRow) (outcome : IntakeOutcome) (db : Database)
    → answer_conflict held (ok outcome, db) ≡ (ok outcome, db)
unfolding answer_conflict
answers none outcome db = refl
answers (some r) outcome db = refl

with_account-folds :
    (claims : Claims) (sha : Text) (draft : TicketDraft) (new_id : Text) (now : ℤ) (db : Database)
    (found : Result Text) {account : Text} {r : TicketRow}
    → found ≡ ok account
    → held_row claims sha db.tickets ≡ some r
    → r.created_at ≤ℤ now
    → ltb_ℤ (now -ℤ r.created_at) default_dedupe_window_ms ≡ true
    → with_account claims sha draft new_id now db found ≡ (ok (acknowledge r true), db)
unfolding with_account
with_account-folds claims sha draft new_id now db found {account} e held after inside = rw e (
    file_ticket-folds db (new_row claims sha draft account new_id now) claims sha now _ held after
      inside)

-- Where the session's organisation has one account, and the newest live row of the same body that
-- it sees was created not after this instant and less than the window before it, the submission
-- is answered with that row, and the database stands as it was.
pub create_ticket-folds :
    (sha256 : Text → Text) (claims : Claims) (draft : TicketDraft) (new_id : Text) (now : ℤ)
    (db : Database) {account : Text} {r : TicketRow}
    → the_account (own_accounts claims db.accounts) ≡ ok account
    → held_row claims (sha256 draft.body) db.tickets ≡ some r
    → r.created_at ≤ℤ now
    → ltb_ℤ (now -ℤ r.created_at) default_dedupe_window_ms ≡ true
    → create_ticket sha256 claims draft new_id now db ≡ (ok (acknowledge r true), db)
unfolding create_ticket
create_ticket-folds sha256 claims draft new_id now db one held after inside =
    ap (answer_conflict (held_row claims (sha256 draft.body) db.tickets))
      (with_account-folds claims (sha256 draft.body) draft new_id now db _ one held after inside)
    ∙ answers (held_row claims (sha256 draft.body) db.tickets) _ db

-- What a submission that was filed leaves.
record Filed (claims : Claims) (sha : Text) (draft : TicketDraft) (new_id : Text) (now : ℤ)
    (db db' : Database) (outcome : IntakeOutcome) : Type 0 where
  account : Text
  one : the_account (own_accounts claims db.accounts) ≡ ok account
  told : outcome ≡ acknowledge (fresh_row claims sha draft account new_id now) false
  written : db' ≡ record db { tickets = fresh_row claims sha draft account new_id now ∷ db.tickets }

told_same :
    {a b : IntakeOutcome} {x y : Database}
    → Path (Result IntakeOutcome × Database) (ok a, x) (ok b, y)
    → a ≡ b
told_same h = ground arith

Outcome-Filed :
    (claims : Claims) (sha : Text) (draft : TicketDraft) (new_id : Text) (now : ℤ)
    (db db' : Database) (outcome : IntakeOutcome) {o : Result IntakeOutcome × Database}
    → Outcome claims sha draft new_id now db o
    → o ≡ (ok outcome, db')
    → outcome.collapsed ≡ false
    → Filed claims sha draft new_id now db db' outcome
Outcome-Filed claims sha draft new_id now db db' outcome (refused e) h n = cc
Outcome-Filed claims sha draft new_id now db db' outcome conflicted h n = cc
Outcome-Filed claims sha draft new_id now db db' outcome (folded_into r k) h n =
    let collapsed : outcome.collapsed ≡ true =
      ap (λ (o : IntakeOutcome). o.collapsed) (sym (told_same h)) in
    absurd (cc)
Outcome-Filed claims sha draft new_id now db db' outcome (filed account one k) h n = record {
  account = account;
  one = one;
  told = sym (told_same h);
  written = sym (ap (λ (x : Result IntakeOutcome × Database). x.1) h);
}

-- A submission that was filed as a new ticket, on a clock ahead of every row, and is sent again
-- by the same session with the same body inside the window, is answered with that ticket, and
-- files nothing.
pub create_ticket-repeat :
    (sha256 : Text → Text) (claims : Claims) (draft again : TicketDraft) (id id' : Text)
    (now now' : ℤ) (db db' : Database) (outcome : IntakeOutcome)
    → Past now db.tickets
    → create_ticket sha256 claims draft id now db ≡ (ok outcome, db')
    → outcome.collapsed ≡ false
    → again.body ≡ draft.body
    → now ≤ℤ now'
    → ltb_ℤ (now' -ℤ now) default_dedupe_window_ms ≡ true
    → create_ticket sha256 claims again id' now' db'
      ≡ (ok (record outcome { collapsed = true }), db')
create_ticket-repeat sha256 claims draft again id id' now now' db db' outcome past first filed_new
      same after inside =
    let sha = sha256 draft.body in
    let f =
      Outcome-Filed claims sha draft id now db db' outcome
        (create_ticket-Outcome sha256 claims draft id now db) first filed_new in
    let row = fresh_row claims sha draft f.account id now in
    let own =
      held_row-own claims sha row db.tickets
        (fresh_row-is_incumbent claims sha draft f.account id now) past in
    let held : held_row claims (sha256 again.body) (row ∷ db.tickets) ≡ some row = rw same own in
    rw (f.told, f.written)
      (create_ticket-folds sha256 claims again id' now' (record db { tickets = row ∷ db.tickets })
        f.one held after inside)
