-- ===== src/Gateway/Admitting.antt =====
-- Sets of calls that `wouldAdmit` admits (src/agents/gateway.ts).
use ledgerdesk.Prelude.{
  ◌≡◌, refl, sym, ◌∙◌, ℕ, ◌+◌, ◌≤◌, ◌<◌, Bool, true, false, List, [], ◌∷◌, ◌++◌, Text, arith,
}
use ledgerdesk.Gateway.Types.{
  e_budget_exhausted, Attempt, fine, gateway_error, other_error, ◌>>=◌, Gateway, World,
}
use ledgerdesk.Gateway.Preparing.{demand, negate}
use ledgerdesk.Gateway.Calling.{
  BudgetProbe, probe_micro, projected_micro, exceeds, committed_of, would_admit_live, would_admit,
}

admitted : (over : Bool) → demand (negate over) e_budget_exhausted ≡ fine tt → over ≡ false
admitted true h = cc
admitted false h = refl

attempt-fine {κ ℓ} :
    {B : Type κ} {A : Type ℓ} (m : Attempt A) (next : A → Attempt B) {b : B}
    → (m >>= next) ≡ fine b
    → (a : A) × (m ≡ fine a) × (next a ≡ fine b)
attempt-fine (fine a) next h = (a, refl, h)
attempt-fine (gateway_error e) next h = cc
attempt-fine other_error next h = cc

fine_injective : {m n : ℕ} → fine m ≡ fine n → m ≡ n
fine_injective e = cc

module _ {S : Type 0} (g : Gateway S) where
  -- The projections of some probes, as an equation.
  abbrev pub Costs : List BudgetProbe → ℕ → Type 0
  Costs [] n = n ≡ 0
  Costs (probe ∷ probes) n =
      (cost : ℕ) × (rest : ℕ) × (probe_micro g probe ≡ fine cost)
      × Costs probes rest
      × (n ≡ cost + rest)

  projected_micro-total :
      (total n : ℕ) (probes : List BudgetProbe)
      → projected_micro g total probes ≡ fine n
      → (m : ℕ) × Costs probes m × (n ≡ total + m)
  unfolding projected_micro
  projected_micro-total total n [] h = (0, refl, ground arith)
  projected_micro-total total n (probe ∷ probes) h =
      let (cost, e, k) =
        attempt-fine (probe_micro g probe) (λ cost. projected_micro g (total + cost) probes) h in
      let (rest, costs, q) = projected_micro-total (total + cost) n probes k in
      (cost + rest, (cost, rest, e, costs, refl), omega (arith, q))

  Costs-prefix :
      (before after : List BudgetProbe) (probe : BudgetProbe) (m n cost : ℕ)
      → Costs before m
      → probe_micro g probe ≡ fine cost
      → Costs (before ++ probe ∷ after) n
      → m + cost ≤ n
  Costs-prefix [] after probe m n cost h e (c, rest, d, k, q) =
      let same : c ≡ cost = fine_injective (sym d ∙ e) in omega (arith, h, same, q)
  Costs-prefix (p ∷ before) after probe m n cost (c, rest, d, k, q) e (c2, rest2, d2, k2, q2) =
      let same : c ≡ c2 = fine_injective (sym d ∙ d2) in
      let less = Costs-prefix before after probe rest rest2 cost k e k2 in
      omega (arith, same, less, q, q2)

  -- Once a set of calls is admitted, outside a replay, each call of it that costs anything still
  -- fits under the cut when its turn comes, as long as what is committed has grown by no more than
  -- the projections of the calls before it.
  pub would_admit-each :
      (org : Text) (before after : List BudgetProbe) (probe : BudgetProbe) (w next : World S)
      (m cost : ℕ)
      → g.replay ≡ false
      → would_admit g org (before ++ probe ∷ after) w ≡ fine tt
      → Costs before m
      → probe_micro g probe ≡ fine cost
      → 0 < cost
      → committed_of g org next ≤ committed_of g org w + m
      → exceeds g (committed_of g org next) cost ≡ false
  unfolding would_admit would_admit_live
  would_admit-each org before after probe w next m cost live h costs e positive grown =
      let (n, k, a) =
        attempt-fine (projected_micro g 0 (before ++ probe ∷ after))
          (λ n. demand (negate (exceeds g (committed_of g org w) n)) e_budget_exhausted)
          (rw live at (h)) in
      let (total, all, q) = projected_micro-total 0 n (before ++ probe ∷ after) k in
      let least = Costs-prefix before after probe m total cost costs e all in
      let fits : exceeds g (committed_of g org w) n ≡ false = admitted _ a in
      ground (arith, least, fits, q, positive, grown)
