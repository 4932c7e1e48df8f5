-- ===== src/Gateway/Rows.antt =====
-- What the gateway writes and sends: the envelope, the user message, the request as text and the
-- row of a call (src/agents/gateway.ts).
use ledgerdesk.Prelude.{
  ℕ, suc, ◌+◌, ◌*◌, ◌/◌, Bool, List, [], ◌∷◌, Option, none, some, length, Text, text, ℤ, pos,
  negsuc, decimal,
}
use ledgerdesk.Prelude.Checked.{Checked, ok, throws}
use ledgerdesk.Canonical.{
  Json, string, numeral, boolean, array, object, Items, nil, cons, Members, end, member,
  canonical_json, format_aud,
}
use ledgerdesk.Canonical.Normal.{plain_json}
use ledgerdesk.Ledger.{LedgerRowContent, agent_call, agent_name, number, or_null}
use ledgerdesk.Ledger.Store.{LedgerHead}
use ledgerdesk.Redaction.{Counts, literal, email, card, account, phone, id}
use ledgerdesk.Gateway.Types.{
  Attempt, fine, other_error, Sampling, ProviderRequest, KbExcerpt, GatewayCall, Gateway,
  RedactionSummary, Moment,
}

abbrev pub lifted {ℓ} : {A : Type ℓ} → Checked A → Attempt A
lifted (ok a) = fine a
lifted (throws t) = other_error

abbrev pub strings : List Text → Items
strings [] = nil
strings (s ∷ r) = cons (string s) (strings r)

unfoldable pub sampling_json : Sampling → Json
unfolding number
sampling_json sampling = object (
    member (text "temperature") (numeral sampling.temperature) (
      member (text "top_p") (numeral sampling.top_p) (
        member (text "max_tokens") (number sampling.max_tokens)
          (member (text "stop") (or_null (λ stop. array (strings stop)) sampling.stop) end))))

abbrev pub excerpt_items : (Text → Text → Json) → List KbExcerpt → Items
excerpt_items shape [] = nil
excerpt_items shape (entry ∷ kb) =
    cons (shape (KbExcerpt.kb_id entry) (KbExcerpt.excerpt entry)) (excerpt_items shape kb)

-- `{ kb_id, excerpt }`
abbrev pub excerpt_json : Text → Text → Json
excerpt_json kb_id excerpt =
    object (member (text "kb_id") (string kb_id) (member (text "excerpt") (string excerpt) end))

abbrev pub message_json : Text → List KbExcerpt → Json
message_json body kb = object (
    member (text "enquiry") (string body)
      (member (text "sources") (array (excerpt_items excerpt_json kb)) end))

unfoldable pub render_user_message : Text → List KbExcerpt → Checked Text
unfolding canonical_json
render_user_message body kb = canonical_json (message_json body kb)

unfoldable pub envelope : GatewayCall → Text → List KbExcerpt → Json
envelope request body_redacted kb_context = object (
    member (text "schema_version") (string (text "1.0")) (
      member (text "agent") (string (agent_name request.agent)) (
        member (text "prompt_version_id") (string request.prompt_version_id) (
          member (text "ticket_id") (or_null string request.ticket_id) (
            member (text "body_redacted") (string body_redacted) (
              member (text "kb_context") (array (excerpt_items excerpt_json kb_context))
                (member (text "locale") (string request.locale) end)))))))

-- A member whose value may be absent is left out by `JSON.stringify`.
abbrev pub optional_member : Text → Option (List Text) → Members → Members
optional_member key none rest = rest
optional_member key (some stop) rest = member key (array (strings stop)) rest

-- `JSON.stringify(providerRequest)`
unfoldable pub outbound : ProviderRequest → Checked Text
unfolding plain_json number
outbound request = plain_json (
    object (
      member (text "model") (string request.model) (
        member (text "system") (string request.system) (
          member (text "user") (string request.user) (
            member (text "sampling")
              (object (
                member (text "temperature") (numeral request.sampling.temperature) (
                  member (text "top_p") (numeral request.sampling.top_p) (
                    member (text "max_tokens") (number request.sampling.max_tokens)
                      (optional_member (text "stop") request.sampling.stop end)))))
              (member (text "seed") (or_null number request.seed) end))))))

unfoldable pub estimate_tokens : Text → ℕ
estimate_tokens s = (length s + 3) / 4

-- `Math.ceil(tokens * price / 1000)`
unfoldable pub price_micro : ℕ → ℕ → ℕ
price_micro tokens per_1k = (tokens * per_1k + 999) / 1000

unfoldable pub int_json : ℤ → Json
unfolding decimal
int_json (pos n) = numeral (decimal n)
int_json (negsuc n) = numeral (45 ∷ decimal (suc n))

abbrev pub counts_json : Counts → Json
counts_json counts = object (
    member (text "literal") (int_json (counts literal)) (
      member (text "email") (int_json (counts email)) (
        member (text "card") (int_json (counts card)) (
          member (text "account") (int_json (counts account)) (
            member (text "phone") (int_json (counts phone))
              (member (text "id") (int_json (counts id)) end))))))

-- `RowFacts`
pub record RowFacts : Type 0 where
  pub input_hash : Text
  pub prompt_hash : Text
  pub sampling : Json
  pub model_returned : Text
  pub response_hash : Text
  pub response_text : Text
  pub tokens_in : ℕ
  pub tokens_out : ℕ
  pub cost_micro : ℕ
  pub latency_ms : ℕ
  pub counts : RedactionSummary
  pub confidence : Option Text
  pub hit : Bool
  pub source_seq : Option ℕ

abbrev pub seq_of : Option LedgerHead → ℕ
seq_of none = 0
seq_of (some head) = head.seq

abbrev pub tokens_of : Option LedgerHead → ℕ
tokens_of none = 0
tokens_of (some head) = head.cum_tokens

unfoldable pub build_row :
    {S : Type 0}
    → Gateway S
    → Moment
    → GatewayCall
    → RowFacts
    → Option LedgerHead
    → LedgerRowContent
unfolding number format_aud
build_row g moment request facts head = record {
  run_id = g.run_id;
  seq = seq_of head + 1;
  org_id = request.org_id;
  ticket_id = request.ticket_id;
  agent = request.agent;
  prompt_version_id = some request.prompt_version_id;
  model_requested = some request.model_requested;
  model_returned = some facts.model_returned;
  sampling = some facts.sampling;
  seed = request.seed;
  input_hash = some facts.input_hash;
  input_path = some request.input_path;
  prompt_hash = some facts.prompt_hash;
  response_hash = some facts.response_hash;
  state_hash = g.state_hash;
  split_id = request.split_id;
  toolchain = g.toolchain;
  restarts = g.restarts;
  tokens_in = facts.tokens_in;
  tokens_out = facts.tokens_out;
  cost_aud = format_aud (pos facts.cost_micro);
  latency_ms = facts.latency_ms;
  cum_tokens = tokens_of head + facts.tokens_in + facts.tokens_out;
  class = agent_call;
  output = object (
      member (text "response") (string facts.response_text) (
        member (text "redaction")
          (object (
            member (text "body") (counts_json facts.counts.body)
              (member (text "kb") (counts_json facts.counts.kb) end)))
          (member (text "canary") (string (text "cleared")) (
            member (text "cache")
              (object (
                member (text "hit") (boolean facts.hit)
                  (member (text "source_seq") (or_null number facts.source_seq) end)))
              end))));
  confidence = facts.confidence;
  ts = moment.now;
}
