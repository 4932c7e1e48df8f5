-- ===== src/States/Console.antt =====
-- What a console may do: the edges that `isAvailableTo` admits, and the lists that it shows.
use ledgerdesk.Prelude.{◌≡◌, refl, ◌↔◌, Option, some, true, All, All-mem, find-mem_select, arith}
use mathlib.Core.List.{Memᴰ}
use ledgerdesk.States.{
  state_eq, transitions, TicketState, new, sent, escalated, resolved, closed, triage_failed,
  UserRole, supervisor, Transition, is_available_to, transitions_from, find_transition,
}

-- The three edges that a person takes, the last one in one role only.
pub data ConsoleEdge : TicketState → TicketState → UserRole → Type 0 where
  resolve : {r : UserRole} → ConsoleEdge sent resolved r
  close : {r : UserRole} → ConsoleEdge resolved closed r
  supervise : ConsoleEdge escalated resolved supervisor

abbrev Standing : TicketState → TicketState → Option Transition → UserRole → Type 0
Standing a b found role =
    (t : Transition) → found ≡ some t → is_available_to t role ≡ true → ConsoleEdge a b role

found-Standing : (a b : TicketState) (role : UserRole) → Standing a b (find_transition a b) role
unfolding find_transition is_available_to
found-Standing sent resolved role = λ t e h. resolve
found-Standing resolved closed role = λ t e h. close
found-Standing escalated resolved supervisor = λ t e h. supervise
found-Standing a b r = λ t e h. ground arith

ConsoleEdge-available :
    {a b : TicketState} {role : UserRole}
    → ConsoleEdge a b role
    → (t : Transition) × (find_transition a b ≡ some t) × (is_available_to t role ≡ true)
unfolding find_transition is_available_to
ConsoleEdge-available resolve = (_, refl, refl)
ConsoleEdge-available close = (_, refl, refl)
ConsoleEdge-available supervise = (_, refl, refl)

-- A role has a published edge available exactly at these three: sent to resolved and resolved to
-- closed in any role, and escalated to resolved in the supervisor's.
pub is_available_to_iff :
    (a b : TicketState) (role : UserRole)
    → ((t : Transition) × (find_transition a b ≡ some t) × (is_available_to t role ≡ true))
      ↔ ConsoleEdge a b role
is_available_to_iff a b role =
    (λ w. found-Standing a b role w.0 w.1 w.2, λ e. ConsoleEdge-available e)

listed-found : (s : TicketState) → All (λ t. find_transition s t.to ≡ some t) (transitions_from s)
unfolding find_transition transitions_from
listed-found new = (refl, (refl, (refl, tt)))
listed-found escalated = (refl, tt)
listed-found triage_failed = (refl, tt)
listed-found _ = (refl, (refl, tt))

-- The list of edges out of a state holds an edge exactly when the lookup of its two ends returns
-- it: no row of the table hides another, and no row is left out.
pub transitions_from_iff :
    (s : TicketState) (t : Transition)
    → Memᴰ t (transitions_from s) ↔ (find_transition s t.to ≡ some t)
transitions_from_iff s t = (
  λ m. All-mem (λ u. find_transition s u.to ≡ some u) _ (listed-found s) m,
  unfold find_transition transitions_from in
      λ e. find-mem_select (λ u. state_eq u.from s) (λ u. state_eq u.to t.to) transitions e,
)
