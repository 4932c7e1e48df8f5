-- ===== src/States/Diagram.antt =====
-- The diagram in the head of src/server/states.ts as a relation, and the table against it.
use ledgerdesk.Prelude.{◌≡◌, refl, ◌↔◌, Option, none, some}
use ledgerdesk.States.{
  TicketState, new, triaged, drafted, awaiting_agent, sent, escalated, resolved, closed, reopened,
  triage_failed, GuardOwner, console, triage_agent, draft_agent, grounding_validator,
  escalation_rule, approval_constraint, reopen_window, find_transition, Transition,
}

-- The arrows as they are drawn, each with the component that decides it.
pub data Edge : TicketState → TicketState → GuardOwner → Type 0 where
  triage_ok : Edge new triaged triage_agent
  triage_fails : Edge new triage_failed triage_agent
  draft_ok : Edge triaged drafted draft_agent
  validator_ok : Edge drafted awaiting_agent grounding_validator
  agent_approves : Edge awaiting_agent sent approval_constraint
  resolve : Edge sent resolved console
  close : Edge resolved closed console
  supervisor_resolves : Edge escalated resolved console
  customer_replies : Edge closed reopened reopen_window
  triage_again : Edge reopened triaged triage_agent
  escalate : {s : TicketState} → (s ≡ escalated → ⊥) → Edge s escalated escalation_rule

-- What a lookup says of its two states.
abbrev Drawn : TicketState → TicketState → Option Transition → Type 0
Drawn a b none = Unit {0}
Drawn a b (some t) = (t.from ≡ a) × (t.to ≡ b) × Edge a b t.guarded_by

find_transition-Drawn : (a b : TicketState) → Drawn a b (find_transition a b)
unfolding find_transition
find_transition-Drawn new triaged = (refl, refl, triage_ok)
find_transition-Drawn new triage_failed = (refl, refl, triage_fails)
find_transition-Drawn triaged drafted = (refl, refl, draft_ok)
find_transition-Drawn drafted awaiting_agent = (refl, refl, validator_ok)
find_transition-Drawn awaiting_agent sent = (refl, refl, agent_approves)
find_transition-Drawn sent resolved = (refl, refl, resolve)
find_transition-Drawn resolved closed = (refl, refl, close)
find_transition-Drawn escalated resolved = (refl, refl, supervisor_resolves)
find_transition-Drawn closed reopened = (refl, refl, customer_replies)
find_transition-Drawn reopened triaged = (refl, refl, triage_again)
find_transition-Drawn escalated escalated = tt
find_transition-Drawn s escalated = (refl, refl, escalate (λ e. cc))
find_transition-Drawn a b = tt

-- The edge that a lookup returns is drawn between its two states.
pub find_transition-Edge :
    {a b : TicketState} {t : Transition}
    → find_transition a b ≡ some t
    → (t.from ≡ a) × (t.to ≡ b) × Edge a b t.guarded_by
find_transition-Edge {a} {b} e = rw e at (find_transition-Drawn a b)

escalation_found :
    (s : TicketState)
    → (s ≡ escalated → ⊥)
    → (t : Transition) × (find_transition s escalated ≡ some t) × (t.guarded_by ≡ escalation_rule)
unfolding find_transition
escalation_found escalated h = absurd (h refl)
escalation_found _ _ = (_, refl, refl)

pub Edge-found :
    {a b : TicketState} {o : GuardOwner}
    → Edge a b o
    → (t : Transition) × (find_transition a b ≡ some t) × (t.guarded_by ≡ o)
unfolding find_transition
Edge-found triage_ok = (_, refl, refl)
Edge-found triage_fails = (_, refl, refl)
Edge-found draft_ok = (_, refl, refl)
Edge-found validator_ok = (_, refl, refl)
Edge-found agent_approves = (_, refl, refl)
Edge-found resolve = (_, refl, refl)
Edge-found close = (_, refl, refl)
Edge-found supervisor_resolves = (_, refl, refl)
Edge-found customer_replies = (_, refl, refl)
Edge-found triage_again = (_, refl, refl)
Edge-found (escalate {s} h) = escalation_found s h

-- The table publishes an edge under an owner exactly when the diagram draws it under that owner.
pub find_transition_iff :
    (a b : TicketState) (o : GuardOwner)
    → ((t : Transition) × (find_transition a b ≡ some t) × (t.guarded_by ≡ o)) ↔ Edge a b o
find_transition_iff a b o =
    (λ found. rw found.2 at (find_transition-Edge found.1).2, λ e. Edge-found e)
