-- ===== src/Gateway/Persisting.antt =====
-- What a call writes to the ledger (`run` in src/agents/gateway.ts).
use ledgerdesk.Prelude.{◌≡◌, refl, ◌⊎◌, inl, inr, ℕ, Text, Bool, true, false, some}
use ledgerdesk.Gateway.Types.{
  e_canary_in_response, e_pii_in_response, GatewayErrorCode, Attempt, fine, gateway_error,
  other_error, ProviderRequest, ProviderResponse, Answer, answered, timed_out, failed, raised,
  GatewayCall, CachedCall, AppendedRow, Gateway, World, Moment, Prepared,
}
use ledgerdesk.Gateway.Preparing.{prepare}
use ledgerdesk.Gateway.Rows.{RowFacts, build_row}
use ledgerdesk.Gateway.Running.{
  Ran, Digests, response_is_clean, digests, found, cached_facts, fresh_facts, fresh_written,
  persist, stays_reserved, released, receive, call_micro, run,
}
use ledgerdesk.Gateway.Cases.{IsClean, searched-IsClean, Permitted, departed, run-cases}

module _ {S : Type 0} (g : Gateway S) (moment : Moment) (request : GatewayCall) where
  -- The facts are of what the chain held for the call, or of what the provider answered to the
  -- call's permitted request.
  abbrev pub IsOf : World S → Prepared → Digests → RowFacts → Type 0
  IsOf w p d facts =
      ((hit : CachedCall) × (found g moment request d w ≡ some hit)
        × (facts ≡ cached_facts g moment request p d hit))
      ⊎ ((q : ProviderRequest) × (user : Text) × (response : ProviderResponse) × Permitted g moment
            request w p q user
          × (g.provider q ≡ answered response)
          × (facts ≡ fresh_facts g moment request p d response))

  -- The store is as it was, or as an append of the row of this call leaves it, whose response holds
  -- no canary, and nothing that was removed when this call was prepared.
  abbrev pub Stored : World S → Ran S → Type 0
  Stored w r =
      (r.1.store ≡ w.store)
      ⊎ ((p : Prepared) × (d : Digests) × (facts : RowFacts) × (prepare g moment.canary_token
              request
            ≡ fine p)
          × (digests g moment request p ≡ fine d)
          × IsOf w p d facts
          × (r.1.store
              ≡ (g.append g.run_id request.org_id (build_row g moment request facts) w.store).1)
          × IsClean g moment request p facts.response_text)

  module _ (w : World S) (p : Prepared) (d : Digests) (q : ProviderRequest) (user : Text)
      (ed : digests g moment request p ≡ fine d)
      (permit : Permitted g moment request w p q user) where
    abbrev held : ℕ
    held = call_micro g moment request p.price user

    fresh_written-store :
        (response : ProviderResponse) (x : Attempt AppendedRow × S)
        → (fresh_written g moment request p d response held
            (departed g moment request w p q user)
            x).1.store
          ≡ x.1
    fresh_written-store response (fine row, store) = refl
    fresh_written-store response (gateway_error e, store) = refl
    fresh_written-store response (other_error, store) = refl

    persist-Stored :
        (response : ProviderResponse) (c : Attempt (Unit {0}))
        → g.provider q ≡ answered response
        → response_is_clean g moment request p response.text ≡ c
        → Stored w
            (persist g moment request p d response held (departed g moment request w p q user) c)
    unfolding response_is_clean
    persist-Stored response (fine _) ea e = inr (
      p,
      d,
      fresh_facts g moment request p d response,
      permit.from_call,
      ed,
      inr (q, user, response, permit, ea, refl),
      fresh_written-store response _,
      searched-IsClean g moment request e_canary_in_response e_pii_in_response p response.text e,
    )
    persist-Stored response (gateway_error x) ea e = inl refl
    persist-Stored response other_error ea e = inl refl

    released-Stored :
        (e : GatewayErrorCode) (b : Bool)
        → Stored w (released g moment request e held (departed g moment request w p q user) b)
    released-Stored e true = inl refl
    released-Stored e false = inl refl

    receive-Stored :
        (a : Answer)
        → g.provider q ≡ a
        → Stored w (receive g moment request p d held (departed g moment request w p q user) a)
    receive-Stored (answered response) ea = persist-Stored response _ ea refl
    receive-Stored timed_out ea = inl refl
    receive-Stored failed ea = inl refl
    receive-Stored (raised e) ea = released-Stored e (stays_reserved g moment request e)

  -- A call leaves the ledger's store as it was, or as one append of its row leaves it. The row is of
  -- what the chain held for the call, or of what the provider answered to the call's permitted
  -- request; in the response that it holds stands neither a canary of the call nor a value that was
  -- removed from its material.
  pub run-Stored : (w : World S) → Stored w (run g moment request w)
  run-Stored w =
      run-cases g moment request w (Stored w) (λ a failure. inl refl)
        (λ p d hit ep ed ef clean.
          inr
            (p, d, cached_facts g moment request p d hit, ep, ed, inl (hit, ef, refl), refl, clean))
        (λ p d q user ed permit. receive-Stored w p d q user ed permit (g.provider q) refl)
