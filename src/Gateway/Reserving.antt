-- ===== src/Gateway/Reserving.antt =====
-- The money that a call reserves (`run` in src/agents/gateway.ts).
use ledgerdesk.Prelude.{◌≡◌, ◌⊎◌, ℕ, ◌+◌, ◌≤◌, ◌∷◌, Text}
use ledgerdesk.Gateway.Types.{
  GatewayErrorCode, e_provider_timeout, Attempt, fine, ProviderRequest, ProviderResponse, Answer,
  answered, timed_out, failed, raised, GatewayCall, AppendedRow, Gateway, World, Moment, Prepared,
}
use ledgerdesk.Gateway.Rows.{build_row}
use ledgerdesk.Gateway.Running.{
  Ran, Digests, response_is_clean, digests, fresh_facts, call_micro, reach_of,
}
use ledgerdesk.Gateway.Cases.{IsFailure, Permitted, departed}

module _ {S : Type 0} (g : Gateway S) (moment : Moment) (request : GatewayCall) where
  -- What the append of the call's row comes to.
  abbrev pub appending : World S → Prepared → Digests → ProviderResponse → Attempt AppendedRow × S
  appending w p d response =
      g.append g.run_id request.org_id
        (build_row g moment request (fresh_facts g moment request p d response)) w.store

  module _ (w : World S) (p : Prepared) (user : Text) where
    -- The call failed, and its projection stays reserved, within the cut.
    abbrev pub IsKept : Ran S → Type 0
    IsKept r =
        IsFailure r.0
        × (r.1.in_flight ≡ w.in_flight + call_micro g moment request p.price user)
        × (r.1.in_flight + g.spent_micro request.org_id (reach_of g g.reach) w.store ≤ g.cut_micro)

    -- The call failed, and nothing of its own stays reserved.
    abbrev pub IsReleased : Ran S → Type 0
    IsReleased r = IsFailure r.0 × (r.1.in_flight ≡ w.in_flight)

    -- An answer is on the chain and nothing stays reserved, or it is not to be written, or its append
    -- failed.
    abbrev pub IsAnswered : ProviderResponse → Ran S → Type 0
    IsAnswered response r =
        ((d : Digests) × (row : AppendedRow) × (digests g moment request p ≡ fine d)
          × (response_is_clean g moment request p response.text ≡ fine tt)
          × ((appending w p d response).0 ≡ fine row)
          × (r.1.store ≡ (appending w p d response).1)
          × (r.1.in_flight ≡ w.in_flight))
        ⊎ (IsKept r × IsFailure (response_is_clean g moment request p response.text))
        ⊎ ((d : Digests) × (digests g moment request p ≡ fine d)
            × IsFailure (appending w p d response).0
            × IsKept r)

    -- An error that the provider threw: one that says that the deadline passed, or another.
    abbrev pub IsRaised : GatewayErrorCode → Ran S → Type 0
    IsRaised e_provider_timeout r = IsKept r
    IsRaised _ r = IsReleased r

    -- What a call leaves reserved, by what the provider did.
    abbrev pub IsDue : Answer → Ran S → Type 0
    IsDue (answered response) r = IsAnswered response r
    IsDue timed_out r = IsKept r
    IsDue failed r = IsReleased r
    IsDue (raised e) r = IsRaised e r

  -- Nothing left and nothing stays reserved, or the call's permitted request left, and what stays
  -- reserved of its projection is due to the provider's answer.
  abbrev pub Reserved : World S → Ran S → Type 0
  Reserved w r =
      ((r.1.sent ≡ w.sent) × (r.1.in_flight ≡ w.in_flight))
      ⊎ ((p : Prepared) × (q : ProviderRequest) × (user : Text) × Permitted g moment request w p q
            user
          × (r.1.sent ≡ q ∷ w.sent)
          × IsDue w p user (g.provider q) r)

  module _ (w : World S) (p : Prepared) (d : Digests) (q : ProviderRequest) (user : Text)
      (ed : digests g moment request p ≡ fine d)
      (permit : Permitted g moment request w p q user) where
    abbrev held : ℕ
    held = call_micro g moment request p.price user

    abbrev after : World S
    after = departed g moment request w p q user

    -- That the request left, and what is due.
    abbrev LeftDue : (Ran S → Type 0) → Ran S → Type 0
    LeftDue P r = (r.1.sent ≡ q ∷ w.sent) × P r
