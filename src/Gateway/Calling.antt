-- ===== src/Gateway/Calling.antt =====
-- `call`, which files the security events of a run, and `wouldAdmit`, which asks whether a set of
-- calls fits under the cut (src/agents/gateway.ts). The detail of an event is left out.
use ledgerdesk.Prelude.{
  ℕ, ◌+◌, Bool, true, false, ◌||◌, List, [], ◌∷◌, Option, none, some, leb, ltb, if◌then◌else◌, Text,
  text, get,
}
use ledgerdesk.Gateway.Types.{
  GatewayErrorCode, e_canary_not_redacted, e_canary_egress, e_pii_egress, e_canary_in_response,
  e_pii_in_response, e_budget_exhausted, Attempt, fine, gateway_error, other_error, ◌>>=◌,
  ModelPrice, KbExcerpt, GatewayCall, Gateway, GatewayResult, World, Moment,
}
use ledgerdesk.Gateway.Preparing.{demand, negate, price_of}
use ledgerdesk.Gateway.Rows.{lifted, render_user_message, estimate_tokens, price_micro}
use ledgerdesk.Gateway.Running.{reach_of, run}

-- `SECURITY_EVENTS`
abbrev pub is_security_event : GatewayErrorCode → Bool
is_security_event e_canary_not_redacted = true
is_security_event e_canary_egress = true
is_security_event e_pii_egress = true
is_security_event e_canary_in_response = true
is_security_event e_pii_in_response = true
is_security_event e_budget_exhausted = true
is_security_event _ = false

abbrev pub is_budget_cut : GatewayErrorCode → Bool
is_budget_cut e_budget_exhausted = true
is_budget_cut _ = false

-- What the sink is given.
pub record SecurityEvent : Type 0 where
  pub org_id : Text
  pub action : GatewayErrorCode
  pub object_type : Text
  pub object_id : Text
  pub ts : Text

-- `budgetCutRecorded`, and the events given to the sink, the latest first.
pub record Filing : Type 0 where
  pub cut_recorded : Bool
  pub events : List SecurityEvent

abbrev pub object_of : Text → Option Text → Text × Text
object_of run none = (text "run", run)
object_of run (some []) = (text "run", [])
object_of run (some (c ∷ ticket)) = (text "ticket", c ∷ ticket)

abbrev pub security_event : Text → Moment → GatewayCall → GatewayErrorCode → SecurityEvent
security_event run moment request e = record {
  org_id = request.org_id;
  action = e;
  object_type = (object_of run request.ticket_id).0;
  object_id = (object_of run request.ticket_id).1;
  ts = moment.now;
}

-- The first cut is filed, and no later one.
abbrev pub file_event : SecurityEvent → (cut done : Bool) → List SecurityEvent → Filing
file_event event true true events = record { cut_recorded = true; events = events }
file_event event true false events = record { cut_recorded = true; events = event ∷ events }
file_event event false done events = record { cut_recorded = done; events = event ∷ events }

unfoldable pub record_security_event : SecurityEvent → Filing → Filing
record_security_event event filing =
    file_event event (is_budget_cut event.action) filing.cut_recorded filing.events

abbrev pub filed_for :
    {A : Type 0} → (GatewayErrorCode → SecurityEvent) → Attempt A → Filing → Filing
filed_for event (fine a) filing = filing
filed_for event other_error filing = filing
filed_for event (gateway_error e) filing =
    if is_security_event e then record_security_event (event e) filing else filing

module _ {S : Type 0} (g : Gateway S) where
  -- A call's outcome is that of its run.
  unfoldable pub call :
      Moment → GatewayCall → World S × Filing → Attempt GatewayResult × World S × Filing
  unfolding run record_security_event
  call moment request (w, filing) =
      let (a, after) = run g moment request w in
      (a, after, filed_for (security_event g.run_id moment request) a filing)

  -- Calls one after another.
  unfoldable pub calls : List (Moment × GatewayCall) → World S × Filing → World S × Filing
  unfolding call
  calls [] s = s
  calls ((moment, request) ∷ rest) s =
      let (a, after, filing) = call moment request s in calls rest (after, filing)

-- `BudgetProbe`
pub record BudgetProbe : Type 0 where
  pub model_requested : Text
  pub prompt_text : Text
  pub body : Text
  pub kb_context : List KbExcerpt
  pub max_tokens : ℕ

abbrev pub probe_price : BudgetProbe → ModelPrice → Text → ℕ
probe_price probe price user =
    price_micro (estimate_tokens probe.prompt_text + estimate_tokens user) price.input_per_1k
    + price_micro probe.max_tokens price.output_per_1k

module _ {S : Type 0} (g : Gateway S) where
  -- The projection of one probe.
  unfoldable pub probe_micro : BudgetProbe → Attempt ℕ
  unfolding get render_user_message price_micro estimate_tokens
  probe_micro probe = do
    price ← price_of (get probe.model_requested g.pricing)
    user ← lifted (render_user_message probe.body probe.kb_context)
    fine (probe_price probe price user)

  unfoldable pub projected_micro : ℕ → List BudgetProbe → Attempt ℕ
  unfolding probe_micro
  projected_micro total [] = fine total
  projected_micro total (probe ∷ probes) = do
    cost ← probe_micro probe
    projected_micro (total + cost) probes

  -- `committed >= cut || committed + projected > cut`
  abbrev pub exceeds : (committed projected : ℕ) → Bool
  exceeds committed projected = leb g.cut_micro committed || ltb g.cut_micro (committed + projected)

  unfoldable pub committed_of : Text → World S → ℕ
  committed_of org w = g.spent_micro org (reach_of g g.reach) w.store + w.in_flight

  unfoldable pub would_admit_live : Text → List BudgetProbe → World S → Attempt (Unit {0})
  unfolding projected_micro committed_of
  would_admit_live org probes w = do
    projected ← projected_micro 0 probes
    demand (negate (exceeds (committed_of org w) projected)) e_budget_exhausted

  unfoldable pub would_admit : Text → List BudgetProbe → World S → Attempt (Unit {0})
  unfolding would_admit_live
  would_admit org probes w = if g.replay then fine tt else would_admit_live org probes w
