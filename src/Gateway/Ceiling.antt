-- ===== src/Gateway/Ceiling.antt =====
-- The ceiling under calls that interleave in one process (`run` in src/agents/gateway.ts): what is
-- on the chain, what is reserved, and how far each call has come. A call reads the chain's sum in
-- one transaction, and checks and reserves once the answer has come back.
use ledgerdesk.Prelude.{◌≡◌, ℕ, ◌+◌, ◌-◌, ◌≤◌, ◌<◌, List, [], ◌∷◌, arith}

-- A call has not begun, has read the sum, is with the provider with its projection reserved, is on
-- the chain with the reservation not yet given back, or ended without giving it back.
pub data Phase : Type 0 where
  idle : Phase
  informed : (spent : ℕ) → Phase
  away : (held : ℕ) → Phase
  written : (held : ℕ) → Phase
  lost : (held : ℕ) → Phase

-- One call moves from phase `x` to phase `y`.
pub data Moves (x y : Phase) : List Phase → List Phase → Type 0 where
  here : {r : List Phase} → Moves x y (x ∷ r) (y ∷ r)
  there : {z : Phase} {r s : List Phase} → Moves x y r s → Moves x y (z ∷ r) (z ∷ s)

pub record Process : Type 0 where
  pub recorded : ℕ
  pub in_flight : ℕ
  pub calls : List Phase

pub data Step (cut : ℕ) : Process → Process → Type 0 where
  -- `spentMicroAud`
  read_sum :
      (s : Process) {calls : List Phase}
      → Moves idle (informed s.recorded) s.calls calls
      → Step cut s (record s { calls = calls })
  -- the check and the reservation
  reserve :
      (s : Process) (spent cost : ℕ) {calls : List Phase}
      → Moves (informed spent) (away cost) s.calls calls
      → spent + s.in_flight < cut
      → spent + s.in_flight + cost ≤ cut
      → Step cut s (record s { in_flight = s.in_flight + cost; calls = calls })
  -- the check fails
  refuse :
      (s : Process) (spent : ℕ) {calls : List Phase}
      → Moves (informed spent) idle s.calls calls
      → Step cut s (record s { calls = calls })
  -- the row is appended
  write_row :
      (s : Process) (held cost : ℕ) {calls : List Phase}
      → Moves (away held) (written held) s.calls calls
      → Step cut s (record s { recorded = s.recorded + cost; calls = calls })
  -- the row is appended, but the append reports an error
  write_unreported :
      (s : Process) (held cost : ℕ) {calls : List Phase}
      → Moves (away held) (lost held) s.calls calls
      → Step cut s (record s { recorded = s.recorded + cost; calls = calls })
  -- the reservation is given back
  give_back :
      (s : Process) (held : ℕ) {calls : List Phase}
      → Moves (written held) idle s.calls calls
      → Step cut s (record s { in_flight = s.in_flight - held; calls = calls })
  -- the provider refused
  fail :
      (s : Process) (held : ℕ) {calls : List Phase}
      → Moves (away held) idle s.calls calls
      → Step cut s (record s { in_flight = s.in_flight - held; calls = calls })
  -- no answer in time, or none that is written
  lose :
      (s : Process) (held : ℕ) {calls : List Phase}
      → Moves (away held) (lost held) s.calls calls
      → Step cut s (record s { calls = calls })

pub data Steps (cut : ℕ) : Process → Process → Type 0 where
  stay : {s : Process} → Steps cut s s
  then_step : {s t u : Process} → Steps cut s t → Step cut t u → Steps cut s u

-- A row costs at most what was reserved for it.
abbrev pub IsCovered : {cut : ℕ} {s t : Process} → Step cut s t → Type 0
IsCovered (write_row s held cost m) = cost ≤ held
IsCovered (write_unreported s held cost m) = cost ≤ held
IsCovered (read_sum s m) = Unit
IsCovered (reserve s spent cost m a b) = Unit
IsCovered (refuse s spent m) = Unit
IsCovered (give_back s held m) = Unit
IsCovered (fail s held m) = Unit
IsCovered (lose s held m) = Unit

-- The sum that a check goes by is no less than what stands on the chain.
abbrev pub IsCurrent : {cut : ℕ} {s t : Process} → Step cut s t → Type 0
IsCurrent (reserve s spent cost m a b) = s.recorded ≤ spent
IsCurrent (read_sum s m) = Unit
IsCurrent (write_row s held cost m) = Unit
IsCurrent (write_unreported s held cost m) = Unit
IsCurrent (refuse s spent m) = Unit
IsCurrent (give_back s held m) = Unit
IsCurrent (fail s held m) = Unit
IsCurrent (lose s held m) = Unit

abbrev pub AreCovered : {cut : ℕ} {s t : Process} → Steps cut s t → Type 0
AreCovered stay = Unit
AreCovered (then_step steps step) = AreCovered steps × IsCovered step

abbrev pub AreCurrent : {cut : ℕ} {s t : Process} → Steps cut s t → Type 0
AreCurrent stay = Unit
AreCurrent (then_step steps step) = AreCurrent steps × IsCurrent step

-- The rows that come to the chain, the last one first: what was reserved for each, and its cost.
abbrev pub row_of : {cut : ℕ} {s t : Process} → Step cut s t → List (ℕ × ℕ) → List (ℕ × ℕ)
row_of (write_row s held cost m) rows = (held, cost) ∷ rows
row_of (write_unreported s held cost m) rows = (held, cost) ∷ rows
row_of (read_sum s m) rows = rows
row_of (reserve s spent cost m a b) rows = rows
row_of (refuse s spent m) rows = rows
row_of (give_back s held m) rows = rows
row_of (fail s held m) rows = rows
row_of (lose s held m) rows = rows

abbrev pub rows_of_steps : {cut : ℕ} {s t : Process} → Steps cut s t → List (ℕ × ℕ)
rows_of_steps stay = []
rows_of_steps (then_step steps step) = row_of step (rows_of_steps steps)

-- What is reserved, and what of it may still come to the chain.
abbrev pub held_of : Phase → ℕ
held_of idle = 0
held_of (informed spent) = 0
held_of (away held) = held
held_of (written held) = held
held_of (lost held) = held

abbrev pub pending_of : Phase → ℕ
pending_of idle = 0
pending_of (informed spent) = 0
pending_of (away held) = held
pending_of (written held) = 0
pending_of (lost held) = 0

abbrev pub sum_of : (Phase → ℕ) → List Phase → ℕ
sum_of f [] = 0
sum_of f (x ∷ r) = f x + sum_of f r

pub Moves-sum_of :
    (f : Phase → ℕ) {x y : Phase} {r s : List Phase}
    → Moves x y r s
    → sum_of f r + f y ≡ sum_of f s + f x
Moves-sum_of f (here {r}) = omega arith
Moves-sum_of f (there {z} {r} {s} m) = omega (arith, Moves-sum_of f m)

pub record IsWithin (cut : ℕ) (s : Process) : Type 0 where
  pub reserved : s.in_flight ≡ sum_of held_of s.calls
  pub within : s.recorded + sum_of pending_of s.calls ≤ cut

pending-held : (x : Phase) → pending_of x ≤ held_of x
pending-held idle = omega arith
pending-held (informed spent) = omega arith
pending-held (away held) = omega arith
pending-held (written held) = omega arith
pending-held (lost held) = omega arith

sum_of-pending : (calls : List Phase) → sum_of pending_of calls ≤ sum_of held_of calls
sum_of-pending [] = omega arith
sum_of-pending (x ∷ r) = omega (arith, pending-held x, sum_of-pending r)

Step-IsWithin :
    {cut : ℕ} {s t : Process} (step : Step cut s t)
    → IsCovered step
    → IsCurrent step
    → IsWithin cut s
    → IsWithin cut t
Step-IsWithin (read_sum s {calls} m) c f h = record {
  reserved = omega (arith, h.reserved, Moves-sum_of held_of m);
  within =
      omega (arith, h.within, h.reserved, c, f, sum_of-pending s.calls, Moves-sum_of pending_of m);
}
Step-IsWithin (reserve s spent cost {calls} m a b) c f h = record {
  reserved = omega (arith, h.reserved, Moves-sum_of held_of m);
  within =
      omega (arith, h.within, h.reserved, c, f, sum_of-pending s.calls, Moves-sum_of pending_of m);
}
Step-IsWithin (refuse s spent {calls} m) c f h = record {
  reserved = omega (arith, h.reserved, Moves-sum_of held_of m);
  within =
      omega (arith, h.within, h.reserved, c, f, sum_of-pending s.calls, Moves-sum_of pending_of m);
}
Step-IsWithin (write_row s held cost {calls} m) c f h = record {
  reserved = omega (arith, h.reserved, Moves-sum_of held_of m);
  within =
      omega (arith, h.within, h.reserved, c, f, sum_of-pending s.calls, Moves-sum_of pending_of m);
}
Step-IsWithin (write_unreported s held cost {calls} m) c f h = record {
  reserved = omega (arith, h.reserved, Moves-sum_of held_of m);
  within =
      omega (arith, h.within, h.reserved, c, f, sum_of-pending s.calls, Moves-sum_of pending_of m);
}
Step-IsWithin (give_back s held {calls} m) c f h = record {
  reserved = omega (arith, h.reserved, Moves-sum_of held_of m);
  within =
      omega (arith, h.within, h.reserved, c, f, sum_of-pending s.calls, Moves-sum_of pending_of m);
}
Step-IsWithin (fail s held {calls} m) c f h = record {
  reserved = omega (arith, h.reserved, Moves-sum_of held_of m);
  within =
      omega (arith, h.within, h.reserved, c, f, sum_of-pending s.calls, Moves-sum_of pending_of m);
}
Step-IsWithin (lose s held {calls} m) c f h = record {
  reserved = omega (arith, h.reserved, Moves-sum_of held_of m);
  within =
      omega (arith, h.within, h.reserved, c, f, sum_of-pending s.calls, Moves-sum_of pending_of m);
}

-- While every check goes by a sum no less than what stands on the chain, and a row costs at most
-- what was reserved for it, what is on the chain and what may still come to it are within the cut,
-- and the process's counter is what its calls hold.
pub Steps-IsWithin :
    {cut : ℕ} {s t : Process} (steps : Steps cut s t)
    → AreCovered steps
    → AreCurrent steps
    → IsWithin cut s
    → IsWithin cut t
Steps-IsWithin stay c f h = h
Steps-IsWithin (then_step steps step) (cs, c) (fs, f) h =
    Step-IsWithin step c f (Steps-IsWithin steps cs fs h)
