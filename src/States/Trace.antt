-- ===== src/States/Trace.antt =====
-- Runs along the published table of src/server/states.ts, whoever takes its edges.
use ledgerdesk.Prelude.{◌≡◌, ◌≢◌, refl, some, List, [], ◌∷◌}
use ledgerdesk.States.{
  TicketState, new, triaged, drafted, awaiting_agent, sent, escalated, resolved, closed, GuardOwner,
  Transition, find_transition,
}
use ledgerdesk.States.Diagram.{
  Edge, find_transition-Edge, Edge-found, draft_ok, validator_ok, agent_approves, close,
  supervisor_resolves, escalate,
}

-- A run from `a`, with the states that it has visited, the last one first.
pub data Trace (a : TicketState) : TicketState → List TicketState → Type 0 where
  here : Trace a a (a ∷ [])
  next :
      {b c : TicketState} {t : Transition} {vs : List TicketState}
      → Trace a b vs
      → find_transition b c ≡ some t
      → Trace a c (c ∷ vs)

sent_from : {a b : TicketState} {o : GuardOwner} → Edge a b o → b ≡ sent → a ≡ awaiting_agent
sent_from agent_approves _ = refl
sent_from _ e = cc

awaiting_from : {a b : TicketState} {o : GuardOwner} → Edge a b o → b ≡ awaiting_agent → a ≡ drafted
awaiting_from validator_ok _ = refl
awaiting_from _ e = cc

drafted_from : {a b : TicketState} {o : GuardOwner} → Edge a b o → b ≡ drafted → a ≡ triaged
drafted_from draft_ok _ = refl
drafted_from _ e = cc

-- The last step of a run that has left its start.
last_step :
    {a c : TicketState} {vs : List TicketState}
    → Trace a c vs
    → c ≢ a
    → (b : TicketState) × (o : GuardOwner) × (us : List TicketState) × Edge b c o
      × Trace a b us
      × (vs ≡ c ∷ us)
last_step here h = absurd (h refl)
last_step (next {b} {c} {t} {vs} r e) h = (b, t.guarded_by, vs, (find_transition-Edge e).2, r, refl)

triaged_last :
    {a c : TicketState} {vs : List TicketState}
    → Trace a c vs
    → (us : List TicketState) × (vs ≡ c ∷ us)
triaged_last here = ([], refl)
triaged_last (next {vs} r e) = (vs, refl)

-- Along edges that the table publishes, a new ticket becomes sent only by being triaged, drafted
-- and validated directly before.
pub new-sent_passes :
    {vs : List TicketState}
    → Trace new sent vs
    → (us : List TicketState) × (vs ≡ sent ∷ awaiting_agent ∷ drafted ∷ triaged ∷ us)
new-sent_passes r =
    let (b1, o1, us1, e1, r1, p1) = last_step r (λ e. cc) in
    let q1 = sent_from e1 refl in
    let (b2, o2, us2, e2, r2, p2) = last_step r1 (λ e. cc) in
    let q2 = awaiting_from e2 q1 in
    let (b3, o3, us3, e3, r3, p3) = last_step r2 (λ e. cc) in
    let q3 = drafted_from e3 q2 in let (us4, p4) = triaged_last r3 in (us4, cc)

-- Of a run along the edges of the diagram.
next-Edge :
    {a b c : TicketState} {o : GuardOwner} {vs : List TicketState}
    → Trace a b vs
    → Edge b c o
    → Trace a c (c ∷ vs)
next-Edge r e = next r (Edge-found e).1

-- From every state a ticket can still be closed.
pub closed_reachable : (s : TicketState) → (vs : List TicketState) × Trace s closed vs
closed_reachable closed = (_, here)
closed_reachable resolved = (_, next-Edge here close)
closed_reachable escalated = (_, next-Edge (next-Edge here supervisor_resolves) close)
closed_reachable s =
    (_, next-Edge (next-Edge (next-Edge here (escalate (λ e. cc))) supervisor_resolves) close)
