-- ===== src/Gateway/Running.antt =====
-- `run`, from the redacted material to the result (src/agents/gateway.ts).
use ledgerdesk.Prelude.{
  ℕ, ◌+◌, ◌-◌, Bool, true, false, ◌&&◌, ◌||◌, List, ◌∷◌, Option, none, some, any, leb, ltb,
  if◌then◌else◌, Text, text_eq, pos,
}
use ledgerdesk.Prelude.Checked.{Checked, ok, throws}
use ledgerdesk.Canonical.{Json, canonical_json, format_aud}
use ledgerdesk.Redaction.{Removal, holds_text, find_leak, plant}
use ledgerdesk.Gateway.Types.{
  GatewayErrorCode, e_canary_egress, e_pii_egress, e_canary_in_response, e_pii_in_response,
  e_budget_exhausted, e_provider_timeout, e_provider_failed, e_model_unexpected,
  e_replay_cache_miss, Attempt, fine, gateway_error, other_error, ◌>>=◌, ProviderRequest,
  ProviderResponse, Answer, answered, timed_out, failed, raised, ModelPrice, BudgetReach, of_run,
  of_term, GatewayCall, CacheProbe, CachedCall, AppendedRow, Gateway, World, Moment, Prepared,
  GatewayResult,
}
use ledgerdesk.Gateway.Preparing.{◌>>◌, demand, negate, prepare}
use ledgerdesk.Gateway.Rows.{
  lifted, sampling_json, envelope, render_user_message, outbound, estimate_tokens, price_micro,
  RowFacts, build_row,
}

abbrev pub Ran : Type 0 → Type 0
Ran S = Attempt GatewayResult × World S

-- What the row and the cache know the call by.
pub record Digests : Type 0 where
  pub input_hash : Text
  pub prompt_hash : Text
  pub sampling : Json

abbrev pub no_leak : GatewayErrorCode → Option Removal → Attempt (Unit {0})
no_leak e none = fine tt
no_leak e (some removal) = gateway_error e

-- No canary and no removed value stands in the text.
unfoldable pub searched :
    {S : Type 0}
    → Gateway S
    → (canary_error leak_error : GatewayErrorCode) → List Text
    → List Removal
    → Text
    → Attempt (Unit {0})
searched g canary_error leak_error canary_values removals s = do
  demand (negate (any (λ value. holds_text s value) canary_values)) canary_error
  no_leak leak_error (find_leak g.to_lower_case s removals)

abbrev pub reach_of : {S : Type 0} → Gateway S → BudgetReach → Option Text
reach_of g of_run = some g.run_id
reach_of g of_term = none

module _ {S : Type 0} (g : Gateway S) (moment : Moment) (request : GatewayCall) where
  abbrev pub canary_values : List Text
  canary_values = moment.canary_token ∷ (plant moment.canary_token).values

  -- `assertResponseIsClean`
  unfoldable pub response_is_clean : Prepared → Text → Attempt (Unit {0})
  response_is_clean p s =
      searched g e_canary_in_response e_pii_in_response canary_values p.removals s

  unfoldable pub digests : Prepared → Attempt Digests
  digests p = do
    covered ← lifted (canonical_json (envelope request p.body_redacted p.kb_context))
    fine (record {
      input_hash = g.sha256_hex covered;
      prompt_hash = g.sha256_hex request.prompt_text;
      sampling = sampling_json request.sampling;
    })

  abbrev pub probe : Digests → CacheProbe
  probe d = record {
    input_hash = d.input_hash;
    prompt_version_id = request.prompt_version_id;
    prompt_hash = d.prompt_hash;
    state_hash = g.state_hash;
    model_requested = request.model_requested;
    sampling = d.sampling;
    seed = request.seed;
  }

  abbrev pub cached_facts : Prepared → Digests → CachedCall → RowFacts
  cached_facts p d hit = record {
    input_hash = d.input_hash;
    prompt_hash = d.prompt_hash;
    sampling = d.sampling;
    model_returned = hit.model_returned;
    response_hash = hit.response_hash;
    response_text = hit.response_text;
    tokens_in = 0;
    tokens_out = 0;
    cost_micro = 0;
    latency_ms = moment.latency_ms;
    counts = p.counts;
    confidence = hit.confidence;
    hit = true;
    source_seq = some hit.seq;
  }

  abbrev pub result_of : Prepared → Digests → RowFacts → AppendedRow → GatewayResult
  result_of p d facts row = record {
    response_text = facts.response_text;
    model_returned = facts.model_returned;
    body_redacted = p.body_redacted;
    kb_context_redacted = p.kb_context;
    redaction = p.counts;
    cached = facts.hit;
    cost_aud = format_aud (pos facts.cost_micro);
    tokens_in = facts.tokens_in;
    tokens_out = facts.tokens_out;
    latency_ms = facts.latency_ms;
    input_hash = d.input_hash;
    ledger = row;
  }

  abbrev pub cached_written :
      Prepared → Digests → CachedCall → World S → Attempt AppendedRow × S → Ran S
  cached_written p d hit w (row, store) =
      (row >>= λ r. fine (result_of p d (cached_facts p d hit) r), record w { store = store })

  -- A hit that is clean is written as a row of its own.
  abbrev pub serve_cached : Prepared → Digests → CachedCall → World S → Attempt (Unit {0}) → Ran S
  serve_cached p d hit w (fine _) =
      cached_written p d hit w (
        g.append g.run_id request.org_id (build_row g moment request (cached_facts p d hit))
          w.store)
  serve_cached p d hit w (gateway_error e) = (gateway_error e, w)
  serve_cached p d hit w other_error = (other_error, w)

  abbrev pub fresh_facts : Prepared → Digests → ProviderResponse → RowFacts
  fresh_facts p d response = record {
    input_hash = d.input_hash;
    prompt_hash = d.prompt_hash;
    sampling = d.sampling;
    model_returned = response.model;
    response_hash = g.sha256_hex response.text;
    response_text = response.text;
    tokens_in = response.tokens_in;
    tokens_out = response.tokens_out;
    cost_micro =
        price_micro response.tokens_in p.price.input_per_1k
        + price_micro response.tokens_out p.price.output_per_1k;
    latency_ms = moment.latency_ms;
    counts = p.counts;
    confidence = g.declared_confidence response.text;
    hit = false;
    source_seq = none;
  }

  -- The row is there: the reservation is given back, and the pin is checked.
  abbrev pub fresh_written :
      Prepared → Digests → ProviderResponse → ℕ → World S → Attempt AppendedRow × S → Ran S
  fresh_written p d response held w (fine row, store) = (
    if request.pin_model && negate (text_eq response.model request.model_requested)
        then gateway_error e_model_unexpected
        else fine (result_of p d (fresh_facts p d response) row),
    record w { store = store; in_flight = w.in_flight - held },
  )
  fresh_written p d response held w (gateway_error e, store) =
      (gateway_error e, record w { store = store })
  fresh_written p d response held w (other_error, store) = (other_error, record w { store = store })

  abbrev pub persist :
      Prepared → Digests → ProviderResponse → ℕ → World S → Attempt (Unit {0}) → Ran S
  persist p d response held w (fine _) = fresh_written p d response held w (
      g.append g.run_id request.org_id (build_row g moment request (fresh_facts p d response))
        w.store)
  persist p d response held w (gateway_error e) = (gateway_error e, w)
  persist p d response held w other_error = (other_error, w)

  -- An error of a provider. It keeps its code; one that says that the deadline passed is taken for it.
  abbrev pub stays_reserved : GatewayErrorCode → Bool
  stays_reserved e_provider_timeout = true
  stays_reserved _ = false

  abbrev pub released : GatewayErrorCode → ℕ → World S → Bool → Ran S
  released e held w true = (gateway_error e, w)
  released e held w false = (gateway_error e, record w { in_flight = w.in_flight - held })

  -- `w` has the reservation in it.
  abbrev pub receive : Prepared → Digests → ℕ → World S → Answer → Ran S
  receive p d held w (answered response) =
      persist p d response held w (response_is_clean p response.text)
  receive p d held w timed_out = (gateway_error e_provider_timeout, w)
  receive p d held w failed = released e_provider_failed held w false
  receive p d held w (raised e) = released e held w (stays_reserved e)

  -- The payload was searched, or could not be written: it leaves or not.
  abbrev pub send : Prepared → Digests → ℕ → ProviderRequest → World S → Attempt (Unit {0}) → Ran S
  send p d held q w (fine _) =
      receive p d held (record w { in_flight = w.in_flight + held; sent = q ∷ w.sent })
        (g.provider q)
  send p d held q w (gateway_error e) = (gateway_error e, w)
  send p d held q w other_error = (other_error, w)

  unfoldable pub payload_is_clean : Prepared → ProviderRequest → Attempt (Unit {0})
  payload_is_clean p q = do
    s ← lifted (outbound q)
    searched g e_canary_egress e_pii_egress canary_values p.removals s

  abbrev pub provider_request : Text → ProviderRequest
  provider_request user = record {
    model = request.model_requested;
    system = request.prompt_text;
    user = user;
    sampling = request.sampling;
    seed = request.seed;
  }

  -- The projection of a call.
  unfoldable pub call_micro : ModelPrice → Text → ℕ
  call_micro price user =
      price_micro (estimate_tokens request.prompt_text + estimate_tokens user) price.input_per_1k
      + price_micro request.sampling.max_tokens price.output_per_1k

  -- `committed >= cut || projected > cut`
  unfoldable pub over_cut : (committed projected : ℕ) → Bool
  over_cut committed projected = leb g.cut_micro committed || ltb g.cut_micro projected

  unfoldable pub committed_micro : World S → ℕ
  committed_micro w = g.spent_micro request.org_id (reach_of g g.reach) w.store + w.in_flight

  abbrev pub within_budget : Prepared → Digests → World S → Text → Bool → Ran S
  within_budget p d w user true = (gateway_error e_budget_exhausted, w)
  within_budget p d w user false =
      send p d (call_micro p.price user) (provider_request user) w
        (payload_is_clean p (provider_request user))

  abbrev pub with_message : Prepared → Digests → World S → Checked Text → Ran S
  with_message p d w (throws t) = (other_error, w)
  with_message p d w (ok user) =
      within_budget p d w user
        (over_cut (committed_micro w) (committed_micro w + call_micro p.price user))

  abbrev pub fresh_call : Prepared → Digests → World S → Bool → Ran S
  fresh_call p d w true = (gateway_error e_replay_cache_miss, w)
  fresh_call p d w false = with_message p d w (render_user_message p.body_redacted p.kb_context)

  abbrev pub looked_up : Prepared → Digests → World S → Option CachedCall → Ran S
  looked_up p d w none = fresh_call p d w g.replay
  looked_up p d w (some hit) = serve_cached p d hit w (response_is_clean p hit.response_text)

  -- What the chain holds for the call, if it is asked.
  abbrev pub found : Digests → World S → Option CachedCall
  found d w = if g.cache_enabled then g.find_cached request.org_id (probe d) w.store else none

  abbrev pub known : Prepared → World S → Attempt Digests → Ran S
  known p w (fine d) = looked_up p d w (found d w)
  known p w (gateway_error e) = (gateway_error e, w)
  known p w other_error = (other_error, w)

  abbrev pub prepared : World S → Attempt Prepared → Ran S
  prepared w (fine p) = known p w (digests p)
  prepared w (gateway_error e) = (gateway_error e, w)
  prepared w other_error = (other_error, w)

  unfoldable pub run : World S → Ran S
  run w = prepared w (prepare g moment.canary_token request)
