-- ===== src/Gateway/Types.antt =====
-- The types of the gateway (src/agents/gateway.ts, src/agents/errors.ts and the store of
-- src/agents/ledger/store.ts) and what it is built from. A price counts millionths of a dollar per
-- thousand tokens, as `audToMicro` rounds it.
use ledgerdesk.Prelude.{ℕ, Bool, List, Option, Text, Map}
use ledgerdesk.Canonical.{Json}
use ledgerdesk.Ledger.{LedgerRowContent, AgentKind}
use ledgerdesk.Ledger.Store.{LedgerHead}
use ledgerdesk.Redaction.{Counts, RedactionResult, Removal}

pub data GatewayErrorCode : Type 0 where
  e_config_invalid e_input_path_missing e_model_price_unknown e_empty_after_redaction
        e_canary_not_redacted e_canary_egress e_pii_egress e_canary_in_response e_pii_in_response
        e_budget_exhausted e_provider_timeout e_provider_failed e_model_unexpected
        e_ledger_write_failed e_replay_cache_miss :
      GatewayErrorCode

-- A step that goes on, or throws: a `GatewayError`, or what a serialisation or a store threw.
pub data Attempt {ℓ} (A : Type ℓ) : Type ℓ where
  fine : A → Attempt A
  gateway_error : GatewayErrorCode → Attempt A
  other_error : Attempt A

infixl 6 ◌>>=◌
abbrev pub ◌>>=◌ {κ ℓ} : {B : Type κ} {A : Type ℓ} → Attempt A → (A → Attempt B) → Attempt B
fine a >>= next = next a
gateway_error e >>= next = gateway_error e
other_error >>= next = other_error

pub record Sampling : Type 0 where
  pub temperature : Text
  pub top_p : Text
  pub max_tokens : ℕ
  pub stop : Option (List Text)

pub record ProviderRequest : Type 0 where
  pub model : Text
  pub system : Text
  pub user : Text
  pub sampling : Sampling
  pub seed : Option ℕ

-- The source takes any integers for the two counts; here they are not negative.
pub record ProviderResponse : Type 0 where
  pub model : Text
  pub text : Text
  pub tokens_in : ℕ
  pub tokens_out : ℕ

-- What `callProvider` comes to: a response, no response in time, a `GatewayError` that the provider
-- itself threw, or anything else that it threw or answered.
pub data Answer : Type 0 where
  answered : ProviderResponse → Answer
  timed_out failed : Answer
  raised : GatewayErrorCode → Answer

pub record ModelPrice : Type 0 where
  pub input_per_1k : ℕ
  pub output_per_1k : ℕ

pub data BudgetReach : Type 0 where
  of_run of_term : BudgetReach

pub record KbExcerpt : Type 0 where
  pub kb_id : Text
  pub excerpt : Text

pub record GatewayCall : Type 0 where
  pub agent : AgentKind
  pub org_id : Text
  pub ticket_id : Option Text
  pub prompt_version_id : Text
  pub prompt_text : Text
  pub body : Text
  pub literals : List Text
  pub kb_context : List KbExcerpt
  pub locale : Text
  pub model_requested : Text
  pub sampling : Sampling
  pub seed : Option ℕ
  pub input_path : Text
  pub split_id : Option Text
  pub pin_model : Bool

pub record CacheProbe : Type 0 where
  pub input_hash : Text
  pub prompt_version_id : Text
  pub prompt_hash : Text
  pub state_hash : Text
  pub model_requested : Text
  pub sampling : Json
  pub seed : Option ℕ

pub record CachedCall : Type 0 where
  pub seq : ℕ
  pub model_returned : Text
  pub response_hash : Text
  pub response_text : Text
  pub tokens_in : ℕ
  pub tokens_out : ℕ
  pub confidence : Option Text

-- What an append returns of the row that it wrote.
pub record AppendedRow : Type 0 where
  pub seq : ℕ
  pub row_hash : Text

-- `GatewayConfig`, its collaborators over a store of type `S`, and what the gateway works out
-- once: the digest of the state, the toolchain and the cut. `redact` is the dictionary's pass.
pub record Gateway (S : Type 0) : Type 0 where
  pub run_id : Text
  pub state_hash : Text
  pub toolchain : Json
  pub pricing : Map ModelPrice
  pub cut_micro : ℕ
  pub reach : BudgetReach
  pub cache_enabled : Bool
  pub replay : Bool
  pub restarts : ℕ
  pub sha256_hex : Text → Text
  pub to_lower_case : Text → Text
  pub redact : Text → List Text → RedactionResult
  pub declared_confidence : Text → Option Text
  pub provider : ProviderRequest → Answer
  pub append : Text → Text → (Option LedgerHead → LedgerRowContent) → S → Attempt AppendedRow × S
  pub spent_micro : Text → Option Text → S → ℕ
  pub find_cached : Text → CacheProbe → S → Option CachedCall

-- The store, the money that is reserved, and what has been sent to the provider, the latest first.
pub record World (S : Type 0) : Type 0 where
  pub store : S
  pub in_flight : ℕ
  pub sent : List ProviderRequest

-- What differs from call to call: the canaries' token, the clock, and a measured time.
pub record Moment : Type 0 where
  pub canary_token : Text
  pub now : Text
  pub latency_ms : ℕ

pub record RedactionSummary : Type 0 where
  pub body : Counts
  pub kb : Counts

-- A call once its material is redacted.
pub record Prepared : Type 0 where
  pub body_redacted : Text
  pub kb_context : List KbExcerpt
  pub removals : List Removal
  pub counts : RedactionSummary
  pub price : ModelPrice

pub record GatewayResult : Type 0 where
  pub response_text : Text
  pub model_returned : Text
  pub body_redacted : Text
  pub kb_context_redacted : List KbExcerpt
  pub redaction : RedactionSummary
  pub cached : Bool
  pub cost_aud : Text
  pub tokens_in : ℕ
  pub tokens_out : ℕ
  pub latency_ms : ℕ
  pub input_hash : Text
  pub ledger : AppendedRow
