-- ===== src/Ledger.antt =====
-- The rows of the ledger and their digests (src/agents/ledger/row.ts). A column that counts is a
-- number from 0. `sha256Hex` is a parameter.
pub mod Linking
pub mod Store
pub mod Columns
mod Examples
pub mod Money
use ledgerdesk.Prelude.{
  ◌≡◌, ℕ, Bool, true, false, List, [], ◌∷◌, ◌++◌, Option, none, some, if◌then◌else◌, Text, text,
  text_eq, decimal,
}
use ledgerdesk.Prelude.Checked.{Checked, ok, throws, ◌>>=◌, bare_error}
use ledgerdesk.Canonical.{
  Json, null, string, numeral, object, member, end, canonical_json, is_hex64,
}
use ledgerdesk.Chain.{Chained, head_hash, digest, verify}

pub data LedgerClass : Type 0 where
  agent_call start promotion_attempt modification_event commitment prereg_anchor agreement_r3
        kb_admission checkpoint :
      LedgerClass

pub data AgentKind : Type 0 where
  triage draft validate evolve system : AgentKind

abbrev pub class_name : LedgerClass → Text
class_name agent_call = text "agent_call"
class_name start = text "start"
class_name promotion_attempt = text "promotion_attempt"
class_name modification_event = text "modification_event"
class_name commitment = text "commitment"
class_name prereg_anchor = text "prereg_anchor"
class_name agreement_r3 = text "agreement_r3"
class_name kb_admission = text "kb_admission"
class_name checkpoint = text "checkpoint"

abbrev pub agent_name : AgentKind → Text
agent_name triage = text "triage"
agent_name draft = text "draft"
agent_name validate = text "validate"
agent_name evolve = text "evolve"
agent_name system = text "system"

pub record LedgerRowContent : Type 0 where
  pub run_id : Text
  pub seq : ℕ
  pub org_id : Text
  pub ticket_id : Option Text
  pub agent : AgentKind
  pub prompt_version_id : Option Text
  pub model_requested : Option Text
  pub model_returned : Option Text
  pub sampling : Option Json
  pub seed : Option ℕ
  pub input_hash : Option Text
  pub input_path : Option Text
  pub prompt_hash : Option Text
  pub response_hash : Option Text
  pub state_hash : Text
  pub split_id : Option Text
  pub toolchain : Json
  pub restarts : ℕ
  pub tokens_in : ℕ
  pub tokens_out : ℕ
  pub cost_aud : Text
  pub latency_ms : ℕ
  pub cum_tokens : ℕ
  pub class : LedgerClass
  pub output : Json
  pub confidence : Option Text
  pub ts : Text

unfoldable pub number : ℕ → Json
unfolding decimal
number n = numeral (decimal n)

abbrev pub or_null {ℓ} : {A : Type ℓ} → (A → Json) → Option A → Json
or_null value none = null
or_null value (some a) = value a

abbrev as_is : Json → Json
as_is v = v

-- The columns that the digest covers.
unfoldable pub covered : LedgerRowContent → Json
unfolding number
covered r = object (
    member (text "run_id") (string r.run_id) (
      member (text "seq") (number r.seq) (
        member (text "org_id") (string r.org_id) (
          member (text "ticket_id") (or_null string r.ticket_id) (
            member (text "agent") (string (agent_name r.agent)) (
              member (text "prompt_version_id") (or_null string r.prompt_version_id) (
                member (text "model_requested") (or_null string r.model_requested) (
                  member (text "model_returned") (or_null string r.model_returned) (
                    member (text "sampling") (or_null as_is r.sampling) (
                      member (text "seed") (or_null number r.seed) (
                        member (text "input_hash") (or_null string r.input_hash) (
                          member (text "input_path") (or_null string r.input_path) (
                            member (text "prompt_hash") (or_null string r.prompt_hash) (
                              member (text "response_hash") (or_null string r.response_hash) (
                                member (text "state_hash") (string r.state_hash) (
                                  member (text "split_id") (or_null string r.split_id) (
                                    member (text "toolchain") (r.toolchain) (
                                      member (text "restarts") (number r.restarts) (
                                        member (text "tokens_in") (number r.tokens_in) (
                                          member (text "tokens_out") (number r.tokens_out) (
                                            member (text "cost_aud") (string r.cost_aud) (
                                              member (text "latency_ms") (number r.latency_ms) (
                                                member (text "cum_tokens") (number r.cum_tokens) (
                                                  member (text "class")
                                                    (string (class_name r.class))
                                                    (member (text "output") (r.output) (
                                                      member (text "confidence")
                                                        (or_null string r.confidence)
                                                        (member (text "ts") (string r.ts)
                                                          end)))))))))))))))))))))))))))

unfoldable pub canonical_row : LedgerRowContent → Checked Text
unfolding covered canonical_json
canonical_row r = canonical_json (covered r)

abbrev pub ChainedRow : Type 0
ChainedRow = Chained LedgerRowContent

-- A row that digests to its own predecessor is refused.
unfoldable pub unless_looped : ChainedRow → Checked ChainedRow
unless_looped c = if text_eq c.row_hash c.prev_hash then throws bare_error else ok c

module _ (sha256_hex : Text → Text) where
  unfoldable pub row_hash : Text → LedgerRowContent → Checked Text
  unfolding digest canonical_row
  row_hash = digest canonical_row sha256_hex

  -- `head` is the digest of the row to attach to.
  unfoldable pub link_row : LedgerRowContent → Option Text → Checked ChainedRow
  unfolding row_hash unless_looped
  link_row row head = do
    own ← row_hash (head_hash head) row
    unless_looped (record { content = row; prev_hash = head_hash head; row_hash = own })

  unfoldable pub verify_row_hash : ChainedRow → Checked Bool
  unfolding verify canonical_row
  verify_row_hash = verify canonical_row sha256_hex

  unfoldable pub state_hash : Text → Text → Text → Checked Text
  unfolding canonical_json
  state_hash schema_version ruleset_hash kb_snapshot = do
    covered ← canonical_json (
        object (
          member (text "schema_version") (string schema_version) (
            member (text "ruleset_hash") (string ruleset_hash)
              (member (text "kb_snapshot") (string kb_snapshot) end))))
    ok (sha256_hex covered)
