-- ===== src/Tickets/Intake/Keys.antt =====
-- The digest and the key of the rows that intake writes.
use ledgerdesk.Prelude.{
  ◌≡◌, refl, ap, ◌∙◌, Bool, true, false, none, some, List, [], ◌||◌, not, ◌∷◌, any, All, Text, ℤ,
  if◌then◌else◌,
}
use ledgerdesk.States.{TicketState}
use ledgerdesk.Dedupe.{dedupe_key}
use ledgerdesk.Tickets.{
  Claims, TicketRow, Database, Result, ok, fail, unique_violation, error, e_role_not_permitted,
  is_staff, with_status, set_status, matched, transition_ticket, commit_update, proceed,
  apply_transition, Transition,
}
use ledgerdesk.Tickets.Intake.{TicketDraft, IntakeOutcome, same_key, create_ticket}
use ledgerdesk.Tickets.Intake.Outcome.{
  Outcome, refused, conflicted, folded_into, filed, create_ticket-Outcome,
}

-- A row that intake wrote names its own body and its own instant; a row of before has neither.
pub data Keyed (sha256 : Text → Text) (row : TicketRow) : Type 0 where
  written :
      row.body_sha256 ≡ some (sha256 row.body_raw)
      → row.dedupe_key ≡ some (dedupe_key row.org_id (sha256 row.body_raw) row.created_at)
      → Keyed sha256 row
  earlier : row.body_sha256 ≡ none → row.dedupe_key ≡ none → Keyed sha256 row

-- No two rows have one key in one organisation.
pub data Distinct : List TicketRow → Type 0 where
  no_rows : Distinct []
  one_more :
      {r : TicketRow} {rs : List TicketRow}
      → any (same_key r) rs ≡ false
      → Distinct rs
      → Distinct (r ∷ rs)

pub record WellKeyed (sha256 : Text → Text) (db : Database) : Type 0 where
  pub keyed : All (Keyed sha256) db.tickets
  pub distinct : Distinct db.tickets

Outcome-WellKeyed :
    (sha256 : Text → Text) (claims : Claims) (draft : TicketDraft) (new_id : Text) (now : ℤ)
    (db : Database) {o : Result IntakeOutcome × Database}
    → Outcome claims (sha256 draft.body) draft new_id now db o
    → WellKeyed sha256 db
    → WellKeyed sha256 o.1
Outcome-WellKeyed sha256 claims draft new_id now db (refused e) w = w
Outcome-WellKeyed sha256 claims draft new_id now db conflicted w = w
Outcome-WellKeyed sha256 claims draft new_id now db (folded_into r h) w = w
Outcome-WellKeyed sha256 claims draft new_id now db (filed a one h) w = record {
  keyed = (written refl refl, w.keyed);
  distinct = one_more h w.distinct;
}

-- An intake keeps the rows keyed by their own body and instant, and the keys apart.
pub create_ticket-WellKeyed :
    (sha256 : Text → Text) (claims : Claims) (draft : TicketDraft) (new_id : Text) (now : ℤ)
    (db : Database)
    → WellKeyed sha256 db
    → WellKeyed sha256 (create_ticket sha256 claims draft new_id now db).1
create_ticket-WellKeyed sha256 claims draft new_id now db w =
    Outcome-WellKeyed sha256 claims draft new_id now db
      (create_ticket-Outcome sha256 claims draft new_id now db) w

set_status-Keyed :
    (sha256 : Text → Text) (claims : Claims) (id : Text) (from to : TicketState)
    (rows : List TicketRow)
    → All (Keyed sha256) rows
    → All (Keyed sha256) (set_status claims id from to rows)
unfolding set_status
set_status-Keyed sha256 claims id from to [] h = tt
set_status-Keyed sha256 claims id from to (r ∷ rs) (k, h) =
    (one (matched claims id from r) k, set_status-Keyed sha256 claims id from to rs h)
  where
    one : (b : Bool) → Keyed sha256 r → Keyed sha256 (if b then with_status to r else r)
    one true (written d e) = written d e
    one true (earlier d e) = earlier d e
    one false k = k

any-set_status :
    (claims : Claims) (id : Text) (from to : TicketState) (r : TicketRow) (b : Bool)
    (rows : List TicketRow)
    → any (same_key (if b then with_status to r else r)) (set_status claims id from to rows)
      ≡ any (same_key r) rows
unfolding set_status
any-set_status claims id from to r b [] = refl
any-set_status claims id from to r b (s ∷ rs) =
    one b (matched claims id from s) (any-set_status claims id from to r b rs)
  where
    one :
        (b c : Bool) {x y : Bool}
        → x ≡ y
        → (same_key (if b then with_status to r else r) (if c then with_status to s else s) || x)
          ≡ (same_key r s || y)
    one true true e = ap (λ z. same_key r s || z) e
    one true false e = ap (λ z. same_key r s || z) e
    one false true e = ap (λ z. same_key r s || z) e
    one false false e = ap (λ z. same_key r s || z) e

set_status-Distinct :
    (claims : Claims) (id : Text) (from to : TicketState) (rows : List TicketRow)
    → Distinct rows
    → Distinct (set_status claims id from to rows)
unfolding set_status
set_status-Distinct claims id from to [] d = d
set_status-Distinct claims id from to (r ∷ rs) (one_more h d) =
    one_more (any-set_status claims id from to r (matched claims id from r) rs ∙ h)
      (set_status-Distinct claims id from to rs d)

-- A transition changes the database, if at all, by the status of what it matches.
module _ {ℓ} (P : Database → Type ℓ) (claims : Claims) (id : Text) (to : TicketState)
    (db : Database) (kept : P db)
    (set : (from : TicketState)
      → P (record db { tickets = set_status claims id from to db.tickets })) where
  commit_update-writes :
      (from : TicketState) (rows : List TicketRow) → P (commit_update claims id from to db rows).1
  unfolding commit_update
  commit_update-writes from [] = kept
  commit_update-writes from (r ∷ []) = set from
  commit_update-writes from (r ∷ s ∷ rs) = kept

  proceed-writes :
      (checked : Result (TicketRow × Transition)) → P (proceed claims id to db checked).1
  unfolding proceed apply_transition
  proceed-writes (ok (current, t)) = commit_update-writes current.status _
  proceed-writes (fail e) = kept
  proceed-writes unique_violation = kept

  gate-writes :
      (staff : Bool) (x : Result TicketRow × Database)
      → P x.1
      → P (if not staff then (error e_role_not_permitted 403, db) else x).1
  gate-writes true x h = h
  gate-writes false x h = kept

  transition_ticket-writes : (seen : Database) → P (transition_ticket claims id to seen db).1
  unfolding transition_ticket
  transition_ticket-writes seen = gate-writes (is_staff claims.role) _ (proceed-writes _)

-- A transition keeps the rows keyed by their own body and instant, and the keys apart.
pub transition_ticket-WellKeyed :
    (sha256 : Text → Text) (claims : Claims) (id : Text) (to : TicketState) (seen db : Database)
    → WellKeyed sha256 db
    → WellKeyed sha256 (transition_ticket claims id to seen db).1
transition_ticket-WellKeyed sha256 claims id to seen db w =
    transition_ticket-writes (WellKeyed sha256) claims id to db w
      (λ from. record {
        keyed = set_status-Keyed sha256 claims id from to db.tickets w.keyed;
        distinct = set_status-Distinct claims id from to db.tickets w.distinct;
      })
      seen
