-- ===== src/Tickets/Reads.antt =====
-- The reads of a session: `listTickets`, `countTicketsByState` and `getTicket` in
-- src/server/tickets.ts.
use mathlib.Core.List.{Memᴰ}
use ledgerdesk.Prelude.{
  ℕ, ◌≡◌, refl, sym, ap, ◌∙◌, ◌↔◌, inl, inr, Bool, true, false, ◌&&◌, ◌||◌, not, if◌then◌else◌,
  Option, List, [], ◌∷◌, map, select, length, ltb_ℤ, eq_ℤ, ◌==◌, Text, text_eq, text_lt,
  text_eq_iff, arith, Bool-cases,
}
use ledgerdesk.States.{TicketState, state_eq, ticket_states}
use ledgerdesk.Tickets.{Claims, TicketRow, Database, is_staff, visible, read_one}

-- `order by created_at desc, id`
abbrev listed_before : TicketRow → TicketRow → Bool
listed_before a b =
    ltb_ℤ b.created_at a.created_at || (eq_ℤ a.created_at b.created_at && not (text_lt b.id a.id))

unfoldable pub insert_row : TicketRow → List TicketRow → List TicketRow
insert_row r [] = r ∷ []
insert_row r (s ∷ rows) = if listed_before r s then r ∷ s ∷ rows else s ∷ insert_row r rows

unfoldable pub sort_rows : List TicketRow → List TicketRow
unfolding insert_row
sort_rows [] = []
sort_rows (r ∷ rows) = insert_row r (sort_rows rows)

unfoldable pub list_tickets : Claims → Database → List TicketRow
unfolding sort_rows
list_tickets claims db = sort_rows (select (visible claims) db.tickets)

-- A state and how many rows are in it; a state with no row has no group.
pub record StateCount : Type 0 where
  pub status : TicketState
  pub n : ℕ

unfoldable pub count_tickets_by_state : Claims → Database → List StateCount
count_tickets_by_state claims db =
    select (λ c. not (c.n == 0))
      (map
        (λ s. record {
          status = s;
          n = length (select (λ r. visible claims r && state_eq r.status s) db.tickets);
        })
        ticket_states)

unfoldable pub get_ticket : Claims → Text → Database → Option TicketRow
unfolding read_one
get_ticket claims id db = read_one claims id db.tickets

-- A row of the session's organisation, and of the customer's own where a customer asks.
pub record Entitled (claims : Claims) (r : TicketRow) : Type 0 where
  pub organisation : r.org_id ≡ claims.org_id
  pub own : is_staff claims.role ≡ false → r.customer_id ≡ claims.sub

visible_iff : (claims : Claims) (r : TicketRow) → (visible claims r ≡ true) ↔ Entitled claims r
unfolding visible
visible_iff claims r = (
  λ h.
      let (same_org, rest) = both (text_eq r.org_id claims.org_id) _ h in
      record {
        organisation = (text_eq_iff r.org_id claims.org_id).0 same_org;
        own = λ off. (text_eq_iff r.customer_id claims.sub).0 (rw off at rest);
      },
  λ e.
      rw ((text_eq_iff r.org_id claims.org_id).1 e.organisation)
        (role (is_staff claims.role) e.own),
)
  where
    both : (a b : Bool) → (a && b) ≡ true → (a ≡ true) × (b ≡ true)
    both a b h = ground arith

    role :
        (staff : Bool)
        → (staff ≡ false → r.customer_id ≡ claims.sub)
        → (staff || text_eq r.customer_id claims.sub) ≡ true
    role true own = refl
    role false own = (text_eq_iff r.customer_id claims.sub).1 (own refl)

clash : true ≡ false → ⊥
clash h = cc

insert_row-mem :
    (r x : TicketRow) (rows : List TicketRow) → Memᴰ x (insert_row r rows) ↔ Memᴰ x (r ∷ rows)
unfolding insert_row
insert_row-mem r x [] = (λ m. m, λ m. m)
insert_row-mem r x (s ∷ rows) = elim (Bool-cases (listed_before r s)) [
  | inl e ↦ rw e (λ m. m, λ m. m)
  | inr e ↦ rw e (swap_in (insert_row-mem r x rows).0, swap_out (insert_row-mem r x rows).1)
]
  where
    swap_in :
        (Memᴰ x (insert_row r rows) → Memᴰ x (r ∷ rows))
        → Memᴰ x (s ∷ insert_row r rows)
        → Memᴰ x (r ∷ s ∷ rows)
    swap_in f (Memᴰ.head e) = Memᴰ.tail (Memᴰ.head e)
    swap_in f (Memᴰ.tail m) = deeper (f m)
      where
        deeper : Memᴰ x (r ∷ rows) → Memᴰ x (r ∷ s ∷ rows)
        deeper (Memᴰ.head e) = Memᴰ.head e
        deeper (Memᴰ.tail k) = Memᴰ.tail (Memᴰ.tail k)

    swap_out :
        (Memᴰ x (r ∷ rows) → Memᴰ x (insert_row r rows))
        → Memᴰ x (r ∷ s ∷ rows)
        → Memᴰ x (s ∷ insert_row r rows)
    swap_out f (Memᴰ.head e) = Memᴰ.tail (f (Memᴰ.head e))
    swap_out f (Memᴰ.tail (Memᴰ.head e)) = Memᴰ.head e
    swap_out f (Memᴰ.tail (Memᴰ.tail k)) = Memᴰ.tail (f (Memᴰ.tail k))

sort_rows-mem : (x : TicketRow) (rows : List TicketRow) → Memᴰ x (sort_rows rows) ↔ Memᴰ x rows
unfolding sort_rows
sort_rows-mem x [] = (λ m. m, λ m. m)
sort_rows-mem x (r ∷ rows) =
    let rest = sort_rows-mem x rows in
    let step = insert_row-mem r x (sort_rows rows) in
    (λ m. under rest.0 (step.0 m), λ m. step.1 (under rest.1 m))
  where
    under : {xs ys : List TicketRow} → (Memᴰ x xs → Memᴰ x ys) → Memᴰ x (r ∷ xs) → Memᴰ x (r ∷ ys)
    under f (Memᴰ.head e) = Memᴰ.head e
    under f (Memᴰ.tail m) = Memᴰ.tail (f m)

select-mem :
    (p : TicketRow → Bool) (x : TicketRow) (rows : List TicketRow)
    → Memᴰ x (select p rows) ↔ (Memᴰ x rows × (p x ≡ true))
select-mem p x [] = (λ m. elim m [ ], λ (m, e). elim m [ ])
select-mem p x (r ∷ rows) = elim (Bool-cases (p r)) [
  | inl e ↦ rw e (in_on e (select-mem p x rows).0, out_on (select-mem p x rows).1)
  | inr e ↦ rw e (in_off (select-mem p x rows).0, out_off e (select-mem p x rows).1)
]
  where
    in_on :
        p r ≡ true
        → (Memᴰ x (select p rows) → Memᴰ x rows × (p x ≡ true))
        → Memᴰ x (r ∷ select p rows)
        → Memᴰ x (r ∷ rows) × (p x ≡ true)
    in_on e f (Memᴰ.head same) = (Memᴰ.head same, ap p same ∙ e)
    in_on e f (Memᴰ.tail m) = let (k, h) = f m in (Memᴰ.tail k, h)

    out_on :
        (Memᴰ x rows × (p x ≡ true) → Memᴰ x (select p rows))
        → Memᴰ x (r ∷ rows) × (p x ≡ true)
        → Memᴰ x (r ∷ select p rows)
    out_on f (Memᴰ.head same, h) = Memᴰ.head same
    out_on f (Memᴰ.tail m, h) = Memᴰ.tail (f (m, h))

    in_off :
        (Memᴰ x (select p rows) → Memᴰ x rows × (p x ≡ true))
        → Memᴰ x (select p rows)
        → Memᴰ x (r ∷ rows) × (p x ≡ true)
    in_off f m = let (k, h) = f m in (Memᴰ.tail k, h)

    out_off :
        p r ≡ false
        → (Memᴰ x rows × (p x ≡ true) → Memᴰ x (select p rows))
        → Memᴰ x (r ∷ rows) × (p x ≡ true)
        → Memᴰ x (select p rows)
    out_off e f (Memᴰ.head same, h) = absurd (clash (sym h ∙ ap p same ∙ e))
    out_off e f (Memᴰ.tail m, h) = f (m, h)

-- A session's list holds exactly the rows of the database that are of its organisation and, where a
-- customer asks, that customer's own.
pub list_tickets_iff :
    (claims : Claims) (db : Database) (r : TicketRow)
    → Memᴰ r (list_tickets claims db) ↔ (Memᴰ r db.tickets × Entitled claims r)
unfolding list_tickets
list_tickets_iff claims db r =
    let sorted = sort_rows-mem r (select (visible claims) db.tickets) in
    let chosen = select-mem (visible claims) r db.tickets in
    let right = visible_iff claims r in
    (
      λ m. let (k, h) = chosen.0 (sorted.0 m) in (k, right.0 h),
      λ (k, e). sorted.1 (chosen.1 (k, right.1 e)),
    )
