-- ===== src/Gateway/Examples.antt =====
-- A gateway whose redactor takes the canaries out and whose model answers, with a counter for a
-- store.
use ledgerdesk.Prelude.{
  ◌≡◌, refl, ℕ, ◌<◌, ◌+◌, ◌-◌, true, false, List, [], ◌∷◌, ◌++◌, none, length, Text, text, text_eq,
  get, decimal, text_lt, is_space, arith,
}
use ledgerdesk.Prelude.Checked.{ok}
use ledgerdesk.Canonical.{null, canonical_json, long, quote, braces, brackets}
use ledgerdesk.Canonical.Normal.{plain_json}
use ledgerdesk.Ledger.{triage, number}
use ledgerdesk.Redaction.{
  RedactionResult, plant, marker, without_markers, starts_with, holds_text, find_leak,
}
use ledgerdesk.Gateway.Types.{
  fine, answered, of_run, GatewayCall, Gateway, World, Moment, KbExcerpt,
}
use ledgerdesk.Gateway.Preparing.{
  prepare, cleared, redact_excerpts, empty_counts, first_units, ends_with,
}
use ledgerdesk.Gateway.Rows.{
  render_user_message, outbound, envelope, sampling_json, estimate_tokens, price_micro,
}
use ledgerdesk.Gateway.Running.{
  run, digests, searched, response_is_clean, payload_is_clean, call_micro, over_cut,
  committed_micro,
}
use ledgerdesk.Gateway.Message.{render_user_message_injective}
use ledgerdesk.Gateway.Egress.{Left, run-Left}
use ledgerdesk.Gateway.Persisting.{Stored, run-Stored}
use ledgerdesk.Gateway.Calling.{
  Filing, BudgetProbe, calls, probe_micro, exceeds, committed_of, would_admit,
}
use ledgerdesk.Gateway.Filing.{IsOnce, calls-IsOnce}
use ledgerdesk.Gateway.Admitting.{Costs, would_admit-each}
use ledgerdesk.Gateway.Ceiling.{
  Process, Steps, stay, then_step, read_sum, reserve, write_row, give_back, here, informed, away,
  written, idle, AreCurrent, IsWithin, AreCovered, rows_of_steps, Steps-IsWithin,
}
use ledgerdesk.Gateway.Overshoot.{two_calls, two_calls-written}

abbrev sample_moment : Moment
sample_moment = record {
  canary_token = text "4f2c";
  now = text "2026-01-01T00:00:00.000Z";
  latency_ms = 3;
}

sample_redact : Text → List Text → RedactionResult
sample_redact s literals = record {
  text =
      first_units (length s - length (plant (text "4f2c")).block) s
      ++ (plant (text "4f2c")).expected_tail;
  removed = [];
  counts = empty_counts;
}

sample_gateway : Gateway ℕ
unfolding sample_redact
sample_gateway = record {
  run_id = text "r";
  state_hash = text "s";
  toolchain = null;
  pricing = (text "m", record { input_per_1k = 1000; output_per_1k = 2000 }) ∷ [];
  cut_micro = 1_000_000;
  reach = of_run;
  cache_enabled = true;
  replay = false;
  restarts = 0;
  sha256_hex = (λ s. s);
  to_lower_case = (λ s. s);
  redact = sample_redact;
  declared_confidence = (λ s. none);
  provider = (λ q.
      answered (record { model = text "m"; text = text "fine"; tokens_in = 5; tokens_out = 7 }));
  append =
      (λ run org build rows. (fine (record { seq = rows + 1; row_hash = text "h" }), rows + 1));
  spent_micro = (λ org reach rows. 0);
  find_cached = (λ org probe rows. none);
}

abbrev sample_call : GatewayCall
sample_call = record {
  agent = triage;
  org_id = text "o";
  ticket_id = none;
  prompt_version_id = text "v";
  prompt_text = text "p";
  body = text "hello";
  literals = [];
  kb_context = [];
  locale = text "en";
  model_requested = text "m";
  sampling = record { temperature = text "0"; top_p = text "1"; max_tokens = 10; stop = none };
  seed = none;
  input_path = text "x";
  split_id = none;
  pin_model = true;
}

abbrev sample_world : World ℕ
sample_world = record { store = 4; in_flight = 0; sent = [] }

sent_once : length (run sample_gateway sample_moment sample_call sample_world).1.sent ≡ 1
unfolding run sample_gateway sample_redact prepare cleared redact_excerpts ends_with plant marker
    without_markers starts_with holds_text find_leak digests response_is_clean payload_is_clean
    searched call_micro over_cut committed_micro envelope outbound render_user_message sampling_json
    estimate_tokens price_micro canonical_json plain_json get text_eq is_space long quote braces
    brackets number decimal text_lt
sent_once = refl

run-Left_example :
    Left sample_gateway sample_moment sample_call sample_world
      (run sample_gateway sample_moment sample_call sample_world)
run-Left_example = run-Left sample_gateway sample_moment sample_call sample_world

run-Stored_example :
    Stored sample_gateway sample_moment sample_call sample_world
      (run sample_gateway sample_moment sample_call sample_world)
run-Stored_example = run-Stored sample_gateway sample_moment sample_call sample_world

abbrev one_source : List KbExcerpt
one_source = record { kb_id = text "k"; excerpt = text "e" } ∷ []

message_text : Text
message_text =
    123 ∷ 34 ∷ text "enquiry"
    ++ 34 ∷ 58 ∷ 34 ∷ 113 ∷ 34 ∷ 44 ∷ 34 ∷ text "sources"
    ++ 34 ∷ 58 ∷ 91 ∷ 123 ∷ 34 ∷ text "excerpt"
    ++ 34 ∷ 58 ∷ 34 ∷ 101 ∷ 34 ∷ 44 ∷ 34 ∷ text "kb_id"
    ++ 34 ∷ 58 ∷ 34 ∷ 107 ∷ 34 ∷ 125 ∷ 93 ∷ 125 ∷ []

message_written : render_user_message (text "q") one_source ≡ ok message_text
unfolding render_user_message message_text canonical_json text_lt braces brackets long
message_written = refl

render_user_message_injective_example : (text "q" ≡ text "q") × (one_source ≡ one_source)
render_user_message_injective_example =
    render_user_message_injective (text "q") (text "q") one_source one_source message_text
      message_written message_written

idle-IsWithin : IsWithin 10 (two_calls 2)
idle-IsWithin = record { reserved = refl; within = omega arith }

one_call :
    Steps 10
      (two_calls 2)
      (record { recorded = 2 + 5; in_flight = 0 + 6 - 6; calls = idle ∷ idle ∷ [] })
one_call =
    then_step
      (then_step
        (then_step (then_step stay (read_sum (two_calls 2) here)) (
          reserve (record { recorded = 2; in_flight = 0; calls = informed 2 ∷ idle ∷ [] }) 2 6 here
            (omega arith) (omega arith)))
        (write_row (record { recorded = 2; in_flight = 0 + 6; calls = away 6 ∷ idle ∷ [] }) 6 5
          here))
      (give_back (record { recorded = 2 + 5; in_flight = 0 + 6; calls = written 6 ∷ idle ∷ [] }) 6
        here)

one_call-AreCovered : AreCovered one_call
unfolding one_call
one_call-AreCovered = omega arith

one_call-AreCurrent : AreCurrent one_call
unfolding one_call
one_call-AreCurrent = omega arith

Steps-IsWithin_example :
    IsWithin 10 (record { recorded = 2 + 5; in_flight = 0 + 6 - 6; calls = idle ∷ idle ∷ [] })
Steps-IsWithin_example =
    Steps-IsWithin one_call one_call-AreCovered one_call-AreCurrent idle-IsWithin

two_calls-written_example :
    (t : Process) × (steps : Steps 10 (two_calls 2) t) × (rows_of_steps steps
      ≡ (7, 7) ∷ (7, 7) ∷ [])
    × (t.recorded ≡ 2 + 7 + 7)
    × (10 < t.recorded)
two_calls-written_example = two_calls-written 10 2 7 (omega arith) (omega arith) (omega arith)

abbrev sample_calls : List (Moment × GatewayCall)
sample_calls =
    (sample_moment, sample_call)
    ∷ (sample_moment, record sample_call { model_requested = text "n" })
    ∷ []

abbrev nothing_filed : Filing
nothing_filed = record { cut_recorded = false; events = [] }

calls-IsOnce_example : IsOnce (calls sample_gateway sample_calls (sample_world, nothing_filed)).1
calls-IsOnce_example = calls-IsOnce sample_gateway sample_calls sample_world nothing_filed refl

abbrev sample_probe : BudgetProbe
sample_probe = record {
  model_requested = text "m";
  prompt_text = text "p";
  body = text "q";
  kb_context = one_source;
  max_tokens = 10;
}

probe_cost : probe_micro sample_gateway sample_probe ≡ fine 35
unfolding probe_micro sample_gateway get render_user_message estimate_tokens price_micro
    canonical_json text_lt text_eq braces brackets long
probe_cost = refl

one-Costs : Costs sample_gateway (sample_probe ∷ []) 35
one-Costs = (35, 0, probe_cost, refl, refl)

set_fits :
    would_admit sample_gateway (text "o") ((sample_probe ∷ []) ++ sample_probe ∷ []) sample_world
    ≡ fine tt
unfolding would_admit sample_gateway get render_user_message estimate_tokens price_micro
    canonical_json text_lt text_eq braces brackets long
set_fits = refl

would_admit-each_example :
    exceeds sample_gateway
      (committed_of sample_gateway (text "o") (record sample_world { in_flight = 35 }))
      35
    ≡ false
would_admit-each_example =
    would_admit-each sample_gateway (text "o") (sample_probe ∷ []) [] sample_probe sample_world
      (record sample_world { in_flight = 35 }) 35 35 (unfold sample_gateway in refl) set_fits
      one-Costs probe_cost (omega arith) (unfold committed_of sample_gateway in omega arith)
