-- ===== src/Ledger/Columns.antt =====
-- The columns that a row's digest covers (`canonicalRow` in src/agents/ledger/row.ts).
use ledgerdesk.Prelude.{
  ◌≡◌, refl, sym, ap, ◌∙◌, ◌↔◌, ◌≢◌, ℕ, true, [], ◌∷◌, Option, none, some, if◌then◌else◌, Text,
  text, text_eq, text_lt, all, arith, decimal, decimal_injective,
}
use ledgerdesk.Prelude.Decimal.{decimal-ne-nil}
use ledgerdesk.Prelude.Decimal.Digits.{IsDigits, decimal-IsDigits}
use ledgerdesk.Prelude.Checked.{ok}
use ledgerdesk.Canonical.{Json, null, string, object, Members, end, member}
use ledgerdesk.Canonical.Normal.{sorted, insert_member}
use ledgerdesk.Canonical.Reader.{is_numeric, numeric_start}
use ledgerdesk.Canonical.Parts.{IsLegible}
use ledgerdesk.Canonical.RoundTrip.{canonical_json_iff}
use ledgerdesk.Ledger.{
  LedgerRowContent, LedgerClass, agent_call, start, promotion_attempt, modification_event,
  commitment, prereg_anchor, agreement_r3, kb_admission, checkpoint, AgentKind, triage, draft,
  validate, evolve, system, class_name, agent_name, number, or_null, covered, canonical_row,
}

-- Rows that agree in every column, the three JSON columns up to the order of members.
pub record Agree (x y : LedgerRowContent) : Type 0 where
  pub run_id : x.run_id ≡ y.run_id
  pub seq : x.seq ≡ y.seq
  pub org_id : x.org_id ≡ y.org_id
  pub ticket_id : x.ticket_id ≡ y.ticket_id
  pub agent : x.agent ≡ y.agent
  pub prompt_version_id : x.prompt_version_id ≡ y.prompt_version_id
  pub model_requested : x.model_requested ≡ y.model_requested
  pub model_returned : x.model_returned ≡ y.model_returned
  pub sampling : sorted (or_null (λ v. v) x.sampling) ≡ sorted (or_null (λ v. v) y.sampling)
  pub seed : x.seed ≡ y.seed
  pub input_hash : x.input_hash ≡ y.input_hash
  pub input_path : x.input_path ≡ y.input_path
  pub prompt_hash : x.prompt_hash ≡ y.prompt_hash
  pub response_hash : x.response_hash ≡ y.response_hash
  pub state_hash : x.state_hash ≡ y.state_hash
  pub split_id : x.split_id ≡ y.split_id
  pub toolchain : sorted x.toolchain ≡ sorted y.toolchain
  pub restarts : x.restarts ≡ y.restarts
  pub tokens_in : x.tokens_in ≡ y.tokens_in
  pub tokens_out : x.tokens_out ≡ y.tokens_out
  pub cost_aud : x.cost_aud ≡ y.cost_aud
  pub latency_ms : x.latency_ms ≡ y.latency_ms
  pub cum_tokens : x.cum_tokens ≡ y.cum_tokens
  pub class : x.class ≡ y.class
  pub output : sorted x.output ≡ sorted y.output
  pub confidence : x.confidence ≡ y.confidence
  pub ts : x.ts ≡ y.ts

value_in : Text → Members → Json
value_in k end = null
value_in k (member j v m) = if text_eq j k then v else value_in k m

value_of : Text → Json → Json
value_of k (object m) = value_in k m
value_of k v = null

column : (k : Text) {v w : Json} → v ≡ w → value_of k v ≡ value_of k w
column k e = ap (value_of k) e

string_injective : {s t : Text} → string s ≡ string t → s ≡ t
string_injective e = cc

number_injective : (m n : ℕ) → number m ≡ number n → m ≡ n
unfolding number
number_injective m n e = let d : decimal m ≡ decimal n = cc in decimal_injective m n d

nullable-string :
    (o p : Option Text) → sorted (or_null string o) ≡ sorted (or_null string p) → o ≡ p
unfolding sorted
nullable-string none none e = refl
nullable-string none (some t) e = cc
nullable-string (some s) none e = cc
nullable-string (some s) (some t) e = cc

nullable-number : (o p : Option ℕ) → sorted (or_null number o) ≡ sorted (or_null number p) → o ≡ p
unfolding sorted number
nullable-number none none e = refl
nullable-number none (some t) e = cc
nullable-number (some s) none e = cc
nullable-number (some s) (some t) e = ap some (number_injective s t e)

class_of : Text → LedgerClass
class_of t =
    if text_eq t (text "agent_call")
    then agent_call
    else if text_eq t (text "start")
    then start
    else if text_eq t (text "promotion_attempt")
    then promotion_attempt
    else if text_eq t (text "modification_event")
    then modification_event
    else if text_eq t (text "commitment")
    then commitment
    else if text_eq t (text "prereg_anchor")
    then prereg_anchor
    else if text_eq t (text "agreement_r3")
    then agreement_r3
    else if text_eq t (text "kb_admission")
    then kb_admission
    else checkpoint

class_of-name : (c : LedgerClass) → class_of (class_name c) ≡ c
unfolding class_of text_eq
class_of-name agent_call = refl
class_of-name start = refl
class_of-name promotion_attempt = refl
class_of-name modification_event = refl
class_of-name commitment = refl
class_of-name prereg_anchor = refl
class_of-name agreement_r3 = refl
class_of-name kb_admission = refl
class_of-name checkpoint = refl

class_name_injective : (c d : LedgerClass) → class_name c ≡ class_name d → c ≡ d
class_name_injective c d e = sym (class_of-name c) ∙ ap class_of e ∙ class_of-name d

agent_of : Text → AgentKind
agent_of t =
    if text_eq t (text "triage")
    then triage
    else if text_eq t (text "draft")
    then draft
    else if text_eq t (text "validate")
    then validate
    else if text_eq t (text "evolve")
    then evolve
    else system

agent_of-name : (c : AgentKind) → agent_of (agent_name c) ≡ c
unfolding agent_of text_eq
agent_of-name triage = refl
agent_of-name draft = refl
agent_of-name validate = refl
agent_of-name evolve = refl
agent_of-name system = refl

agent_name_injective : (c d : AgentKind) → agent_name c ≡ agent_name d → c ≡ d
agent_name_injective c d e = sym (agent_of-name c) ∙ ap agent_of e ∙ agent_of-name d

columns-Agree : (x y : LedgerRowContent) → sorted (covered x) ≡ sorted (covered y) → Agree x y
unfolding sorted insert_member covered text_lt text_eq value_of value_in number
columns-Agree x y e = record {
  run_id = string_injective (column (text "run_id") e);
  seq = number_injective x.seq y.seq (column (text "seq") e);
  org_id = string_injective (column (text "org_id") e);
  ticket_id = nullable-string x.ticket_id y.ticket_id (column (text "ticket_id") e);
  agent = agent_name_injective x.agent y.agent (string_injective (column (text "agent") e));
  prompt_version_id =
      nullable-string x.prompt_version_id y.prompt_version_id (column (text "prompt_version_id") e);
  model_requested =
      nullable-string x.model_requested y.model_requested (column (text "model_requested") e);
  model_returned =
      nullable-string x.model_returned y.model_returned (column (text "model_returned") e);
  sampling = column (text "sampling") e;
  seed = nullable-number x.seed y.seed (column (text "seed") e);
  input_hash = nullable-string x.input_hash y.input_hash (column (text "input_hash") e);
  input_path = nullable-string x.input_path y.input_path (column (text "input_path") e);
  prompt_hash = nullable-string x.prompt_hash y.prompt_hash (column (text "prompt_hash") e);
  response_hash = nullable-string x.response_hash y.response_hash (column (text "response_hash") e);
  state_hash = string_injective (column (text "state_hash") e);
  split_id = nullable-string x.split_id y.split_id (column (text "split_id") e);
  toolchain = column (text "toolchain") e;
  restarts = number_injective x.restarts y.restarts (column (text "restarts") e);
  tokens_in = number_injective x.tokens_in y.tokens_in (column (text "tokens_in") e);
  tokens_out = number_injective x.tokens_out y.tokens_out (column (text "tokens_out") e);
  cost_aud = string_injective (column (text "cost_aud") e);
  latency_ms = number_injective x.latency_ms y.latency_ms (column (text "latency_ms") e);
  cum_tokens = number_injective x.cum_tokens y.cum_tokens (column (text "cum_tokens") e);
  class = class_name_injective x.class y.class (string_injective (column (text "class") e));
  output = column (text "output") e;
  confidence = nullable-string x.confidence y.confidence (column (text "confidence") e);
  ts = string_injective (column (text "ts") e);
}

Agree-columns : (x y : LedgerRowContent) → Agree x y → sorted (covered x) ≡ sorted (covered y)
unfolding sorted insert_member covered text_lt
Agree-columns x y a = cc

-- Rows whose three JSON columns hold numbers that are decimals.
unfoldable pub IsReadable : LedgerRowContent → Type 0
unfolding IsLegible
IsReadable r = IsLegible (or_null (λ v. v) r.sampling) × IsLegible r.toolchain × IsLegible r.output

digits-numeric : (s : Text) → IsDigits s → all is_numeric s ≡ true
digits-numeric [] h = refl
digits-numeric (c ∷ s) ((l, u), h) = ground (arith, digits-numeric s h)

digits-start : (s : Text) → s ≢ [] → IsDigits s → numeric_start s ≡ true
digits-start [] n h = absurd (n refl)
digits-start (c ∷ s) n ((l, u), h) = ground arith

number-IsLegible : (n : ℕ) → IsLegible (number n)
unfolding IsLegible number
number-IsLegible n = (
  digits-start (decimal n) (decimal-ne-nil n) (decimal-IsDigits n),
  digits-numeric (decimal n) (decimal-IsDigits n),
)

nullable_text-IsLegible : (o : Option Text) → IsLegible (or_null string o)
unfolding IsLegible
nullable_text-IsLegible none = tt
nullable_text-IsLegible (some s) = tt

nullable_number-IsLegible : (o : Option ℕ) → IsLegible (or_null number o)
nullable_number-IsLegible none = unfold IsLegible in tt
nullable_number-IsLegible (some n) = number-IsLegible n

covered-IsLegible : (r : LedgerRowContent) → IsReadable r → IsLegible (covered r)
unfolding IsLegible IsReadable covered
covered-IsLegible r (sampling, toolchain, output) = (
  tt,
  (
    number-IsLegible r.seq,
    (
      tt,
      (
        nullable_text-IsLegible r.ticket_id,
        (
          tt,
          (
            nullable_text-IsLegible r.prompt_version_id,
            (
              nullable_text-IsLegible r.model_requested,
              (
                nullable_text-IsLegible r.model_returned,
                (
                  sampling,
                  (
                    nullable_number-IsLegible r.seed,
                    (
                      nullable_text-IsLegible r.input_hash,
                      (
                        nullable_text-IsLegible r.input_path,
                        (
                          nullable_text-IsLegible r.prompt_hash,
                          (
                            nullable_text-IsLegible r.response_hash,
                            (
                              tt,
                              (
                                nullable_text-IsLegible r.split_id,
                                (
                                  toolchain,
                                  (
                                    number-IsLegible r.restarts,
                                    (
                                      number-IsLegible r.tokens_in,
                                      (
                                        number-IsLegible r.tokens_out,
                                        (
                                          tt,
                                          (
                                            number-IsLegible r.latency_ms,
                                            (
                                              number-IsLegible r.cum_tokens,
                                              (
                                                tt,
                                                (
                                                  output,
                                                  (nullable_text-IsLegible r.confidence, (tt, tt)),
                                                ),
                                              ),
                                            ),
                                          ),
                                        ),
                                      ),
                                    ),
                                  ),
                                ),
                              ),
                            ),
                          ),
                        ),
                      ),
                    ),
                  ),
                ),
              ),
            ),
          ),
        ),
      ),
    ),
  ),
)

-- Two rows serialise to one text exactly if they agree in every column that the digest covers: the
-- sampling, the toolchain and the output up to the order of members, all else as it stands.
pub canonical_row_iff :
    (x y : LedgerRowContent) (t : Text)
    → IsReadable x
    → IsReadable y
    → canonical_row x ≡ ok t
    → (canonical_row y ≡ ok t) ↔ Agree x y
unfolding canonical_row
canonical_row_iff x y t l m e =
    let both =
      canonical_json_iff (covered x) (covered y) t (covered-IsLegible x l) (covered-IsLegible y m)
        e in
    (λ d. columns-Agree x y (both.0 d), λ a. both.1 (Agree-columns x y a))
