-- ===== src/Gateway/Egress.antt =====
-- What leaves, what is kept and what is reserved (`run` in src/agents/gateway.ts).
use ledgerdesk.Prelude.{◌≡◌, refl, ◌⊎◌, inl, inr, ℕ, ◌∷◌, Text, Bool, true, false}
use ledgerdesk.Gateway.Types.{
  Attempt, fine, gateway_error, other_error, ProviderRequest, ProviderResponse, Answer, answered,
  timed_out, failed, raised, GatewayErrorCode, GatewayCall, AppendedRow, Gateway, World, Moment,
  Prepared,
}
use ledgerdesk.Gateway.Running.{
  Ran, Digests, fresh_written, persist, stays_reserved, released, receive, call_micro, run,
}
use ledgerdesk.Gateway.Cases.{Permitted, departed, run-cases}

module _ {S : Type 0} (g : Gateway S) (moment : Moment) (request : GatewayCall) where
  module _ (p : Prepared) (d : Digests) (held : ℕ) (w : World S) where
    fresh_written-sent :
        (response : ProviderResponse) (r : Attempt AppendedRow) (store : S)
        → (fresh_written g moment request p d response held w (r, store)).1.sent ≡ w.sent
    fresh_written-sent response (fine row) store = refl
    fresh_written-sent response (gateway_error e) store = refl
    fresh_written-sent response other_error store = refl

    persist-sent :
        (response : ProviderResponse) (c : Attempt (Unit {0}))
        → (persist g moment request p d response held w c).1.sent ≡ w.sent
    persist-sent response (fine _) = fresh_written-sent response _ _
    persist-sent response (gateway_error e) = refl
    persist-sent response other_error = refl

    released-sent :
        (e : GatewayErrorCode) (b : Bool) → (released g moment request e held w b).1.sent ≡ w.sent
    released-sent e true = refl
    released-sent e false = refl

    receive-sent : (a : Answer) → (receive g moment request p d held w a).1.sent ≡ w.sent
    receive-sent (answered response) = persist-sent response _
    receive-sent timed_out = refl
    receive-sent failed = refl
    receive-sent (raised e) = released-sent e (stays_reserved g moment request e)

  -- Nothing was sent, or one permitted request was.
  abbrev pub Left : World S → Ran S → Type 0
  Left w r =
      (r.1.sent ≡ w.sent)
      ⊎ ((p : Prepared) × (q : ProviderRequest) × (user : Text) × (r.1.sent ≡ q ∷ w.sent)
          × Permitted g moment request w p q user)

  -- A call sends nothing to the provider, or one request that is made of the redacted material, in
  -- whose payload neither a canary nor a removed value stands; it is then not a replay, less than
  -- the cut is committed, and the projection of the call keeps within the cut.
  pub run-Left : (w : World S) → Left w (run g moment request w)
  run-Left w =
      run-cases g moment request w (Left w) (λ a failure. inl refl)
        (λ p d hit ep ed ef clean. inl refl)
        (λ p d q user ed permit. inr (
          p,
          q,
          user,
          receive-sent p d (call_micro g moment request p.price user)
              (departed g moment request w p q user) (g.provider q),
          permit,
        ))
