-- ===== src/Authority/Containment.antt =====
-- `contains` against chains of active scopes.
use mathlib.Core.Path.{subst}
use ledgerdesk.Prelude.{
  ℕ, zero, suc, ◌≤◌, ◌<◌, ◌≡◌, refl, sym, ap, ◌∙◌, ◌↔◌, Bool, true, false, ◌==◌, if◌then◌else◌,
  Option, none, some, List, [], ◌∷◌, All, length, Text, text_eq, text_eq_iff, arith, Bool-cases,
  inl, inr, ◌⊎◌,
}
use ledgerdesk.Authority.{Scope, active_scope, has, round, contains_from, contains}

same_some : {A : Type 0} {a b : A} → some a ≡ some b → a ≡ b
same_some h = ground arith

clash : false ≡ true → ⊥
clash h = cc

not_zero : (n : ℕ) → 0 < n → (n == 0) ≡ false
not_zero n h = ground arith

module _ (scopes : List Scope) (parent : Text) where
  -- The parent is reached from `n` over so many active scopes, itself and `n` counted.
  pub data Below : ℕ → Text → Type 0 where
    itself :
        {n : Text} {s : Scope}
        → 0 < length n
        → active_scope scopes n ≡ some s
        → n ≡ parent
        → Below 1 n
    via :
        {k : ℕ} {n m : Text} {s : Scope}
        → 0 < length n
        → active_scope scopes n ≡ some s
        → text_eq n parent ≡ false
        → s.parent_id ≡ some m
        → Below k m
        → Below (suc k) n

  differ : {n : Text} → n ≡ parent → text_eq n parent ≡ false → ⊥
  differ {n} e d = clash (sym d ∙ (text_eq_iff n parent).1 e)

  round-true :
      (n : Text) (o : Option Scope) (further : Option Text → Bool)
      → round parent n o further ≡ true
      → (s : Scope) × (o ≡ some s)
        × ((n ≡ parent) ⊎ ((text_eq n parent ≡ false) × (further s.parent_id ≡ true)))
  round-true n none further h = cc
  round-true n (some s) further h = elim (Bool-cases (text_eq n parent)) [
    | inl e ↦ (s, refl, inl ((text_eq_iff n parent).0 e))
    | inr e ↦ (s, refl, inr (e, rw e at h))
  ]

  unguarded :
      (a b : Bool) (x : Bool)
      → (if a then false else if b then false else x) ≡ true
      → (a ≡ false) × (x ≡ true)
  unguarded true b x h = cc
  unguarded false true x h = cc
  unguarded false false x h = (refl, h)

  reaches :
      (left : ℕ) (visited : List Text) (n : Option Text)
      → contains_from scopes parent left visited n ≡ true
      → (c : Text) × (n ≡ some c) × (k : ℕ) × (k ≤ left) × Below k c
  unfolding contains_from
  reaches zero visited n h = cc
  reaches (suc left) visited none h = cc
  reaches (suc left) visited (some c) h =
      let (named, rest) = unguarded (length c == 0) (has visited c) _ h in
      let (s, found, either) =
        round-true c (active_scope scopes c) (contains_from scopes parent left (c ∷ visited))
          rest in
      elim either [
        | inl same ↦ (c, refl, 1, omega arith, itself (ground arith) found same)
        | inr (differs, further) ↦
            let (m, next, k, small, below) = reaches left (c ∷ visited) s.parent_id further in
            (c, refl, suc k, omega arith, via (ground arith) found differs next below)
      ]

  one_scope :
      (n : Text) {s t : Scope}
      → active_scope scopes n ≡ some s
      → active_scope scopes n ≡ some t
      → s ≡ t
  one_scope n h k = same_some (sym h ∙ k)

  Below-unique : {k j : ℕ} {n : Text} → Below k n → Below j n → k ≡ j
  Below-unique (itself p f e) (itself q g d) = refl
  Below-unique (itself p f e) (via q g d m b) = absurd (differ e d)
  Below-unique (via p f d m b) (itself q g e) = absurd (differ e d)
  Below-unique (via {k} {m = m} p f d next b) (via {m = l} q g c next' b') =
      let up : m ≡ l =
        same_some (sym next ∙ ap (λ (s : Scope). s.parent_id) (one_scope _ f g) ∙ next') in
      ap suc (Below-unique (subst (Below k) up b) b')

  -- Every scope that the loop has been at lies further down.
  abbrev Deeper : ℕ → List Text → Type 0
  Deeper k visited = All (λ (v : Text). (j : ℕ) × (k < j) × Below j v) visited

  Deeper-has :
      {k : ℕ} {n : Text} (visited : List Text)
      → Below k n
      → Deeper k visited
      → has visited n ≡ false
  Deeper-has [] b d = refl
  Deeper-has {k} {n} (v ∷ visited) b ((j, lt, c), d) = elim (Bool-cases (text_eq v n)) [
    | inl e ↦
        let same : j ≡ k = Below-unique (subst (Below j) ((text_eq_iff v n).0 e) c) b in
        absurd (omega arith)
    | inr e ↦ rw e (Deeper-has visited b d)
  ]

  Deeper-next : (k : ℕ) (visited : List Text) → Deeper (suc k) visited → Deeper k visited
  Deeper-next k [] d = tt
  Deeper-next k (v ∷ visited) ((j, lt, c), d) = ((j, omega arith, c), Deeper-next k visited d)

  reached :
      (left : ℕ) (visited : List Text) {k : ℕ} {n : Text}
      → Below k n
      → k ≤ left
      → Deeper k visited
      → contains_from scopes parent left visited (some n) ≡ true
  unfolding contains_from
  reached zero visited (itself p f e) small d = absurd (omega arith)
  reached zero visited (via p f c m b) small d = absurd (omega arith)
  reached (suc left) visited {n = n} (itself p f e) small d =
      rw (not_zero (length n) p, Deeper-has visited (itself p f e) d, f, (text_eq_iff n parent).1 e)
        refl
  reached (suc left) visited {n = n} (via {k} p f c next b) small d =
      rw (not_zero (length n) p, Deeper-has visited (via p f c next b) d, f, c, next)
        (reached left (n ∷ visited) b (omega arith)
          ((suc k, omega arith, via p f c next b), Deeper-next k visited d))

-- A scope contains another exactly when it is reached from the other upwards over at most 32 active
-- scopes, both counted, none with an empty identifier.
pub contains_iff :
    (scopes : List Scope) (parent child : Text)
    → (contains scopes parent child ≡ true) ↔ ((k : ℕ) × (k ≤ 32) × Below scopes parent k child)
unfolding contains
contains_iff scopes parent child = (
  λ h.
      let (c, same, k, small, below) = reaches scopes parent 32 [] (some child) h in
      (k, small, subst (Below scopes parent k) (sym (same_some same)) below),
  λ (k, small, below). reached scopes parent 32 [] below small tt,
)
