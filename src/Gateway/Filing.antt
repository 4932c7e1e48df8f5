-- ===== src/Gateway/Filing.antt =====
-- The security events that `call` files (src/agents/gateway.ts).
use ledgerdesk.Prelude.{◌≡◌, ℕ, ◌+◌, List, [], ◌∷◌, if-cases, if◌then◌else◌, arith}
use ledgerdesk.Gateway.Types.{
  GatewayErrorCode, Attempt, fine, gateway_error, other_error, GatewayCall, Gateway, World, Moment,
}
use ledgerdesk.Gateway.Running.{run}
use ledgerdesk.Gateway.Calling.{
  is_security_event, is_budget_cut, SecurityEvent, Filing, security_event, record_security_event,
  filed_for, call, calls,
}

abbrev pub cuts : List SecurityEvent → ℕ
cuts [] = 0
cuts (e ∷ events) = (if is_budget_cut (SecurityEvent.action e) then 1 else 0) + cuts events

-- The cut stands among the events once, if it is noted, and otherwise not at all.
abbrev pub IsOnce : Filing → Type 0
IsOnce filing = cuts filing.events ≡ (if filing.cut_recorded then 1 else 0)

record_security_event-IsOnce :
    (event : SecurityEvent) (filing : Filing)
    → IsOnce filing
    → IsOnce (record_security_event event filing)
unfolding record_security_event
record_security_event-IsOnce event filing h = ground arith

filed_for-IsOnce :
    {A : Type 0} (event : GatewayErrorCode → SecurityEvent) (a : Attempt A) (filing : Filing)
    → IsOnce filing
    → IsOnce (filed_for event a filing)
filed_for-IsOnce event (fine a) filing h = h
filed_for-IsOnce event other_error filing h = h
filed_for-IsOnce event (gateway_error e) filing h =
    if-cases IsOnce (is_security_event e) (λ _. record_security_event-IsOnce (event e) filing h)
      (λ _. h)

-- Whatever calls are made, the exhausted budget is filed once if it was noted that it was, and
-- otherwise never.
pub calls-IsOnce :
    {S : Type 0} (g : Gateway S) (requests : List (Moment × GatewayCall)) (w : World S)
    (filing : Filing)
    → IsOnce filing
    → IsOnce (calls g requests (w, filing)).1
unfolding calls call
calls-IsOnce g [] w filing h = h
calls-IsOnce g ((moment, request) ∷ rest) w filing h =
    let after = run g moment request w in
    calls-IsOnce g rest after.1 (filed_for (security_event g.run_id moment request) after.0 filing)
      (filed_for-IsOnce (security_event g.run_id moment request) after.0 filing h)
