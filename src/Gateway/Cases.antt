-- ===== src/Gateway/Cases.antt =====
-- The courses that `run` can take (src/agents/gateway.ts), as a rule for what holds of all of them.
use ledgerdesk.Prelude.{
  ◌≡◌, refl, ℕ, ◌+◌, ◌≤◌, ◌<◌, Bool, true, false, List, [], ◌∷◌, Option, none, some, any, All, Text,
  arith,
}
use ledgerdesk.Prelude.Checked.{Checked, ok, throws}
use ledgerdesk.Redaction.{Removal, holds_text, leaks, first_leak, find_leak}
use ledgerdesk.Gateway.Types.{
  GatewayErrorCode, e_canary_egress, e_pii_egress, Attempt, fine, gateway_error, other_error, ◌>>=◌,
  ProviderRequest, GatewayCall, CachedCall, Gateway, GatewayResult, World, Moment, Prepared,
}
use ledgerdesk.Gateway.Preparing.{◌>>◌, demand, negate, prepare}
use ledgerdesk.Gateway.Rows.{lifted, render_user_message, outbound, build_row}
use ledgerdesk.Gateway.Running.{
  Ran, Digests, no_leak, searched, canary_values, response_is_clean, digests, cached_facts,
  cached_written, serve_cached, receive, send, payload_is_clean, provider_request, call_micro,
  over_cut, committed_micro, within_budget, with_message, fresh_call, looked_up, found, known,
  prepared, run,
}

abbrev pub IsFailure {ℓ} : {A : Type ℓ} → Attempt A → Type 0
IsFailure (fine a) = ⊥
IsFailure (gateway_error e) = Unit
IsFailure other_error = Unit

passed :
    (a b : GatewayErrorCode) (dirty : Bool) (leak : Option Removal)
    → (demand (negate dirty) a >> no_leak b leak) ≡ fine tt
    → (dirty ≡ false) × (leak ≡ none)
passed a b true leak h = cc
passed a b false none h = (refl, refl)
passed a b false (some r) h = cc

lifted-fine :
    (c : Checked Text) (next : Text → Attempt (Unit {0}))
    → (lifted c >>= next) ≡ fine tt
    → (s : Text) × (c ≡ ok s) × (next s ≡ fine tt)
lifted-fine (ok s) next h = (s, refl, h)
lifted-fine (throws t) next h = cc

module _ {S : Type 0} (g : Gateway S) (moment : Moment) (request : GatewayCall) where
  -- A text in which no canary and no removed value stands.
  pub record IsClean (p : Prepared) (s : Text) : Type 0 where
    pub no_canary : All (λ value. holds_text s value ≡ false) (canary_values g moment request)
    pub no_removal :
        All (λ removal. leaks g.to_lower_case (g.to_lower_case s) removal ≡ false) p.removals

  any-none :
      (s : Text) (values : List Text)
      → any (λ value. holds_text s value) values ≡ false
      → All (λ value. holds_text s value ≡ false) values
  any-none s [] h = tt
  any-none s (v ∷ values) h = (ground arith, any-none s values (ground arith))

  first_leak-none :
      (s : Text) (removed : List Removal)
      → first_leak g.to_lower_case s removed ≡ none
      → All (λ removal. leaks g.to_lower_case s removal ≡ false) removed
  first_leak-none s [] h = tt
  first_leak-none s (r ∷ removed) h = (ground arith, first_leak-none s removed (ground arith))

  pub searched-IsClean :
      (a b : GatewayErrorCode) (p : Prepared) (s : Text)
      → searched g a b (canary_values g moment request) p.removals s ≡ fine tt
      → IsClean p s
  unfolding searched find_leak
  searched-IsClean a b p s h =
      let (canaries, removals) =
        passed a b (any (λ value. holds_text s value) (canary_values g moment request))
          (find_leak g.to_lower_case s p.removals) h in
      record {
        no_canary = any-none s (canary_values g moment request) canaries;
        no_removal = first_leak-none (g.to_lower_case s) p.removals removals;
      }

  -- A request that may leave: the call was prepared, the answer is not to come from the chain, the
  -- payload is clean, and the projection stays within the cut.
  pub record Permitted (w : World S) (p : Prepared) (q : ProviderRequest) (user : Text)
      : Type 0 where
    pub from_call : prepare g moment.canary_token request ≡ fine p
    pub message : render_user_message p.body_redacted p.kb_context ≡ ok user
    pub asks : q ≡ provider_request g moment request user
    pub live : g.replay ≡ false
    pub before_cut : committed_micro g moment request w < g.cut_micro
    pub within_cut :
        committed_micro g moment request w + call_micro g moment request p.price user ≤ g.cut_micro
    pub payload : (s : Text) × (outbound q ≡ ok s) × IsClean p s

  payload-IsClean :
      (p : Prepared) (q : ProviderRequest)
      → payload_is_clean g moment request p q ≡ fine tt
      → (s : Text) × (outbound q ≡ ok s) × IsClean p s
  unfolding payload_is_clean
  payload-IsClean p q h =
      let (s, e, k) =
        lifted-fine (outbound q)
          (λ s.
            searched g e_canary_egress e_pii_egress (canary_values g moment request) p.removals s)
          h in
      (s, e, searched-IsClean e_canary_egress e_pii_egress p s k)

  over_cut-lem :
      (committed projected : ℕ)
      → over_cut g moment request committed projected ≡ false
      → (committed < g.cut_micro) × (projected ≤ g.cut_micro)
  unfolding over_cut
  over_cut-lem committed projected h = (ground arith, ground arith)

  -- The world once a request has left: its projection is reserved.
  abbrev pub departed : World S → Prepared → ProviderRequest → Text → World S
  departed w p q user = record w {
    in_flight = w.in_flight + call_micro g moment request p.price user;
    sent = q ∷ w.sent;
  }

  -- What a rule must show: of a failure that changes nothing, of a clean answer from the chain, and
  -- of what becomes of a permitted request.
  module _ (w : World S) (P : Ran S → Type 0)
      (stopped : (a : Attempt GatewayResult) → IsFailure a → P (a, w))
      (cached : (p : Prepared) (d : Digests) (hit : CachedCall)
        → prepare g moment.canary_token request ≡ fine p
        → digests g moment request p ≡ fine d
        → found g moment request d w ≡ some hit
        → IsClean p hit.response_text
        → P (
            cached_written g moment request p d hit w (
              g.append g.run_id request.org_id
                (build_row g moment request (cached_facts g moment request p d hit))
                w.store)))
      (asked : (p : Prepared) (d : Digests) (q : ProviderRequest) (user : Text)
        → digests g moment request p ≡ fine d
        → Permitted w p q user
        → P (
            receive g moment request p d
              (call_micro g moment request p.price user)
              (departed w p q user)
              (g.provider q))) where
    cached-case :
        (p : Prepared) (d : Digests) (hit : CachedCall) (c : Attempt (Unit {0}))
        → prepare g moment.canary_token request ≡ fine p
        → digests g moment request p ≡ fine d
        → found g moment request d w ≡ some hit
        → response_is_clean g moment request p hit.response_text ≡ c
        → P (serve_cached g moment request p d hit w c)
    unfolding response_is_clean
    cached-case p d hit (fine _) ep ed ef e =
        cached p d hit ep ed ef (searched-IsClean _ _ p hit.response_text e)
    cached-case p d hit (gateway_error x) ep ed ef e = stopped (gateway_error x) tt
    cached-case p d hit other_error ep ed ef e = stopped other_error tt

    send-case :
        (p : Prepared) (d : Digests) (user : Text) (c : Attempt (Unit {0}))
        → digests g moment request p ≡ fine d
        → payload_is_clean g moment request p (provider_request g moment request user) ≡ c
        → (((s : Text) × (outbound (provider_request g moment request user) ≡ ok s) × IsClean p s)
            → Permitted w p (provider_request g moment request user) user)
        → P (
            send g moment request p d
              (call_micro g moment request p.price user)
              (provider_request g moment request user)
              w
              c)
    send-case p d user (fine _) ed e permit =
        asked p d (provider_request g moment request user) user ed
          (permit (payload-IsClean p (provider_request g moment request user) e))
    send-case p d user (gateway_error x) ed e permit = stopped (gateway_error x) tt
    send-case p d user other_error ed e permit = stopped other_error tt

    budget-case :
        (p : Prepared) (d : Digests) (user : Text) (over : Bool)
        → prepare g moment.canary_token request ≡ fine p
        → digests g moment request p ≡ fine d
        → g.replay ≡ false
        → render_user_message p.body_redacted p.kb_context ≡ ok user
        → over_cut g moment request
            (committed_micro g moment request w)
            (committed_micro g moment request w + call_micro g moment request p.price user)
          ≡ over
        → P (within_budget g moment request p d w user over)
    budget-case p d user true ep ed er em eo = stopped _ tt
    budget-case p d user false ep ed er em eo =
        let (before, within) = over_cut-lem _ _ eo in
        send-case p d user
          (payload_is_clean g moment request p (provider_request g moment request user)) ed refl
          (λ payload. record {
            from_call = ep;
            message = em;
            asks = refl;
            live = er;
            before_cut = before;
            within_cut = within;
            payload = payload;
          })

    message-case :
        (p : Prepared) (d : Digests) (c : Checked Text)
        → prepare g moment.canary_token request ≡ fine p
        → digests g moment request p ≡ fine d
        → g.replay ≡ false
        → render_user_message p.body_redacted p.kb_context ≡ c
        → P (with_message g moment request p d w c)
    message-case p d (throws t) ep ed er em = stopped other_error tt
    message-case p d (ok user) ep ed er em = budget-case p d user _ ep ed er em refl

    fresh-case :
        (p : Prepared) (d : Digests) (replaying : Bool)
        → prepare g moment.canary_token request ≡ fine p
        → digests g moment request p ≡ fine d
        → g.replay ≡ replaying
        → P (fresh_call g moment request p d w replaying)
    fresh-case p d true ep ed er = stopped _ tt
    fresh-case p d false ep ed er = message-case p d _ ep ed er refl

    looked-case :
        (p : Prepared) (d : Digests) (hit : Option CachedCall)
        → prepare g moment.canary_token request ≡ fine p
        → digests g moment request p ≡ fine d
        → found g moment request d w ≡ hit
        → P (looked_up g moment request p d w hit)
    looked-case p d none ep ed ef = fresh-case p d g.replay ep ed refl
    looked-case p d (some hit) ep ed ef = cached-case p d hit _ ep ed ef refl

    known-case :
        (p : Prepared) (d : Attempt Digests)
        → prepare g moment.canary_token request ≡ fine p
        → digests g moment request p ≡ d
        → P (known g moment request p w d)
    known-case p (fine d) ep ed = looked-case p d _ ep ed refl
    known-case p (gateway_error x) ep ed = stopped (gateway_error x) tt
    known-case p other_error ep ed = stopped other_error tt

    prepared-case :
        (p : Attempt Prepared)
        → prepare g moment.canary_token request ≡ p
        → P (prepared g moment request w p)
    prepared-case (fine p) e = known-case p (digests g moment request p) e refl
    prepared-case (gateway_error x) e = stopped (gateway_error x) tt
    prepared-case other_error e = stopped other_error tt

    pub run-cases : P (run g moment request w)
    unfolding run
    run-cases = prepared-case (prepare g moment.canary_token request) refl
