-- ===== src/States.antt =====
-- The ticket state machine of src/server/states.ts: the published table of edges, the two ways to
-- look an edge up, and which edges a console may take.
pub mod Diagram
pub mod Console
pub mod Trace
mod Examples
use ledgerdesk.Prelude.{
  String, Bool, true, false, ◌&&◌, not, Option, none, some, List, [], ◌∷◌, ◌++◌, map, find, select,
  any, if◌then◌else◌,
}

pub data TicketState : Type 0 where
  new triaged drafted awaiting_agent sent escalated resolved closed reopened triage_failed :
      TicketState

pub TicketState-discrete : Discrete TicketState
TicketState-discrete = hlevel

pub data UserRole : Type 0 where
  customer agent supervisor : UserRole

pub data GuardOwner : Type 0 where
  console triage_agent draft_agent grounding_validator escalation_rule approval_constraint
        reopen_window :
      GuardOwner

-- `===` on the two enumerations of strings.
abbrev pub state_eq : TicketState → TicketState → Bool
state_eq new new = true
state_eq triaged triaged = true
state_eq drafted drafted = true
state_eq awaiting_agent awaiting_agent = true
state_eq sent sent = true
state_eq escalated escalated = true
state_eq resolved resolved = true
state_eq closed closed = true
state_eq reopened reopened = true
state_eq triage_failed triage_failed = true
state_eq _ _ = false

abbrev pub role_eq : UserRole → UserRole → Bool
role_eq customer customer = true
role_eq agent agent = true
role_eq supervisor supervisor = true
role_eq _ _ = false

abbrev pub ticket_states : List TicketState
ticket_states =
    new ∷ triaged ∷ drafted ∷ awaiting_agent ∷ sent ∷ escalated ∷ resolved ∷ closed ∷ reopened
    ∷ triage_failed ∷ []

-- `requires_role` is `none` where the source leaves `requiresRole` out.
pub record Transition : Type 0 where
  pub from : TicketState
  pub to : TicketState
  pub guard : String
  pub guarded_by : GuardOwner
  pub requires_role : Option (List UserRole)

abbrev edge : TicketState → TicketState → String → GuardOwner → Transition
edge a b text owner = record {
  from = a;
  to = b;
  guard = text;
  guarded_by = owner;
  requires_role = none;
}

abbrev pub escalation_guard : String
escalation_guard = "a clause of the escalation rule fires, and the firing clause is recorded"

abbrev pub escalation_edges : List Transition
escalation_edges =
    map (λ state. edge state escalated escalation_guard escalation_rule)
      (select (λ state. not (state_eq state escalated)) ticket_states)

abbrev pub transitions : List Transition
transitions =
    edge new triaged "triage returned a schema-valid object carrying its confidence" triage_agent
    ∷ edge new triage_failed "schema violation, timeout, or an empty body after redaction"
        triage_agent
    ∷ edge triaged drafted "a draft was produced for the ticket" draft_agent
    ∷ edge drafted awaiting_agent
        "the validator reports grounded = true and the policy check passes" grounding_validator
    ∷ edge awaiting_agent sent "approved_by is not null — a database constraint, not a convention"
        approval_constraint
    ∷ edge sent resolved "the ticket is resolved; no further guard is published for this edge"
        console
    ∷ edge resolved closed
        "the resolution is closed out; no further guard is published for this edge" console
    ∷ record (edge escalated resolved
        "taken from the supervisor console; the human closes what was escalated to a human"
        console) { requires_role = some (supervisor ∷ []) }
    ∷ edge closed reopened
        "a customer reply inside the retention window; the SLA clock restarts and retries are preserved. The customer supplies the event (their reply); staff or the system executes the state transition — the staff-only write policy is correct and permanent"
        reopen_window
    ∷ edge reopened triaged "the reopened ticket is triaged again" triage_agent
    ∷ escalation_edges

unfoldable pub transitions_from : TicketState → List Transition
transitions_from from = select (λ t. state_eq t.from from) transitions

unfoldable pub find_transition : TicketState → TicketState → Option Transition
find_transition from to = find (λ t. state_eq t.from from && state_eq t.to to) transitions

abbrev is_console : GuardOwner → Bool
is_console console = true
is_console _ = false

unfoldable pub is_guard_available : Transition → Bool
is_guard_available t = is_console t.guarded_by

-- `requiresRole.includes(role)`, and true where the edge names no role.
abbrev pub role_allowed : Option (List UserRole) → UserRole → Bool
role_allowed none role = true
role_allowed (some roles) role = any (λ r. role_eq r role) roles

unfoldable pub is_available_to : Transition → UserRole → Bool
unfolding is_guard_available
is_available_to t role =
    if not (is_guard_available t) then false else role_allowed t.requires_role role
