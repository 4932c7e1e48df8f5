-- ===== src/States/Examples.antt =====
-- Edges of the machine, and one run of a ticket.
use ledgerdesk.Prelude.{◌≡◌, refl, none, List, [], ◌∷◌}
use ledgerdesk.States.{
  TicketState, new, triaged, drafted, awaiting_agent, sent, resolved, closed, console, Transition,
  find_transition,
}
use ledgerdesk.States.Trace.{Trace, here, next, new-sent_passes}

no_skip : find_transition new sent ≡ none
unfolding find_transition
no_skip = refl

abbrev closing : Transition
closing = record {
  from = resolved;
  to = closed;
  guard = "the resolution is closed out; no further guard is published for this edge";
  guarded_by = console;
  requires_role = none;
}

sent_run : Trace new sent (sent ∷ awaiting_agent ∷ drafted ∷ triaged ∷ new ∷ [])
unfolding find_transition
sent_run = next (next (next (next here refl) refl) refl) refl

new-sent_passes_example :
    (us : List TicketState) × (sent ∷ awaiting_agent ∷ drafted ∷ triaged ∷ new ∷ []
      ≡ sent ∷ awaiting_agent ∷ drafted ∷ triaged ∷ us)
new-sent_passes_example = new-sent_passes sent_run
