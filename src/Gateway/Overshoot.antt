-- ===== src/Gateway/Overshoot.antt =====
-- Two calls of one process, the second of which reads the sum before the first one's row and is
-- checked after its reservation is given back (`run` in src/agents/gateway.ts).
use ledgerdesk.Prelude.{◌≡◌, refl, ℕ, ◌+◌, ◌-◌, ◌≤◌, ◌<◌, [], ◌∷◌, arith}
use ledgerdesk.Gateway.Ceiling.{
  idle, informed, away, written, here, there, Process, read_sum, reserve, write_row, give_back,
  Steps, stay, then_step, rows_of_steps,
}

-- A process whose two calls have not begun.
abbrev pub two_calls : ℕ → Process
two_calls recorded = record { recorded = recorded; in_flight = 0; calls = idle ∷ idle ∷ [] }

module _ (cut spent cost : ℕ) (open_cut : spent < cut) (one_fits : spent + cost ≤ cut) where
  -- The first call, up to its request; the second reads the sum; then the first ends.
  first_ends : Steps cut (two_calls spent) (record {
    recorded = spent + cost;
    in_flight = 0 + cost - cost;
    calls = idle ∷ informed spent ∷ [];
  })
  first_ends =
      then_step
        (then_step
          (then_step
            (then_step (then_step stay (read_sum (two_calls spent) here)) (
              reserve
                (record { recorded = spent; in_flight = 0; calls = informed spent ∷ idle ∷ [] })
                spent cost here (omega (arith, open_cut)) (omega (arith, one_fits))))
            (read_sum
              (record { recorded = spent; in_flight = 0 + cost; calls = away cost ∷ idle ∷ [] })
              (there here)))
          (write_row
            (record {
              recorded = spent;
              in_flight = 0 + cost;
              calls = away cost ∷ informed spent ∷ [];
            })
            cost cost here))
        (give_back
          (record {
            recorded = spent + cost;
            in_flight = 0 + cost;
            calls = written cost ∷ informed spent ∷ [];
          })
          cost here)

  second_ends : Steps cut (two_calls spent) (record {
    recorded = spent + cost + cost;
    in_flight = 0 + cost - cost + cost - cost;
    calls = idle ∷ idle ∷ [];
  })
  second_ends =
      then_step
        (then_step
          (then_step first_ends (
            reserve
              (record {
                recorded = spent + cost;
                in_flight = 0 + cost - cost;
                calls = idle ∷ informed spent ∷ [];
              })
              spent cost (there here) (omega (arith, open_cut)) (omega (arith, one_fits))))
          (write_row
            (record {
              recorded = spent + cost;
              in_flight = 0 + cost - cost + cost;
              calls = idle ∷ away cost ∷ [];
            })
            cost cost (there here)))
        (give_back
          (record {
            recorded = spent + cost + cost;
            in_flight = 0 + cost - cost + cost;
            calls = idle ∷ written cost ∷ [];
          })
          cost (there here))

  -- Where one call of a cost fits under the cut and two do not, a process of two calls can still
  -- bring two rows to the chain, each of which cost what was reserved for it; what is on the chain
  -- is then past the cut.
  pub two_calls-written :
      cut < spent + cost + cost
      → (t : Process) × (steps : Steps cut (two_calls spent) t) × (rows_of_steps steps
          ≡ (cost, cost) ∷ (cost, cost) ∷ [])
        × (t.recorded ≡ spent + cost + cost)
        × (cut < t.recorded)
  unfolding second_ends first_ends
  two_calls-written past = (
    record {
      recorded = spent + cost + cost;
      in_flight = 0 + cost - cost + cost - cost;
      calls = idle ∷ idle ∷ [];
    },
    second_ends,
    refl,
    refl,
    past,
  )
