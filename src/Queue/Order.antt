-- ===== src/Queue/Order.antt =====
-- `compareQueueKeys` as an order on keys.
use ledgerdesk.Prelude.{
  ℕ, ℤ, sym, ◌∙◌, ◌≡◌, refl, ◌↔◌, ◌<◌, ◌⊎◌, inl, inr, Bool, true, false, arith, pos, leb_ℤ, ltb_ℤ,
  text_lt, text_eq_iff, text_lt_irrefl, text_lt_trans, text_lt_total, text_eq_refl,
}
use ledgerdesk.Queue.{QueueKey, compare_queue_keys}

-- `a` may stand before `b`.
abbrev pub at_most : QueueKey → QueueKey → Bool
at_most a b = leb_ℤ (compare_queue_keys a b) (pos 0)

-- The published order: a breached ticket first, then the higher priority, then the older ticket,
-- then the smaller identifier.
pub data Precedes (a b : QueueKey) : Type 0 where
  by_breach : a.breached ≡ true → b.breached ≡ false → Precedes a b
  by_priority : a.breached ≡ b.breached → b.priority < a.priority → Precedes a b
  by_age :
      a.breached ≡ b.breached
      → a.priority ≡ b.priority
      → ltb_ℤ a.created_at b.created_at ≡ true
      → Precedes a b
  by_id :
      a.breached ≡ b.breached
      → a.priority ≡ b.priority
      → a.created_at ≡ b.created_at
      → text_lt a.id b.id ≡ true
      → Precedes a b

bool_split : (x y : Bool) → ((x ≡ true) × (y ≡ false)) ⊎ (((y ≡ true) × (x ≡ false)) ⊎ (x ≡ y))
bool_split x y = ground arith

nat_split : (x y : ℕ) → (y < x) ⊎ ((x < y) ⊎ (x ≡ y))
nat_split x y = ground arith

int_split : (x y : ℤ) → (ltb_ℤ x y ≡ true) ⊎ ((ltb_ℤ y x ≡ true) ⊎ (x ≡ y))
int_split x y = ground arith

-- Of two keys one precedes the other, or they are one key.
pub Precedes-total : (a b : QueueKey) → (a ≡ b) ⊎ (Precedes a b ⊎ Precedes b a)
Precedes-total a b = elim (bool_split a.breached b.breached) [
  | inl (p, q) ↦ inr (inl (by_breach p q))
  | inr (inl (p, q)) ↦ inr (inr (by_breach p q))
  | inr (inr p) ↦ elim (nat_split a.priority b.priority) [
    | inl q ↦ inr (inl (by_priority p q))
    | inr (inl q) ↦ inr (inr (by_priority (sym p) q))
    | inr (inr q) ↦ elim (int_split a.created_at b.created_at) [
      | inl r ↦ inr (inl (by_age p q r))
      | inr (inl r) ↦ inr (inr (by_age (sym p) (sym q) r))
      | inr (inr r) ↦ elim (text_lt_total a.id b.id) [
        | inl s ↦ inl (ground arith)
        | inr (inl s) ↦ inr (inl (by_id p q r s))
        | inr (inr s) ↦ inr (inr (by_id (sym p) (sym q) (sym r) s))
      ]
    ]
  ]
]

pub Precedes-trans : {a b c : QueueKey} → Precedes a b → Precedes b c → Precedes a c
Precedes-trans (by_breach p q) (by_breach r s) = by_breach p s
Precedes-trans (by_breach p q) (by_priority r s) = by_breach p (sym r ∙ q)
Precedes-trans (by_breach p q) (by_age r s t) = by_breach p (sym r ∙ q)
Precedes-trans (by_breach p q) (by_id r s t u) = by_breach p (sym r ∙ q)
Precedes-trans (by_priority p q) (by_breach r s) = by_breach (p ∙ r) s
Precedes-trans (by_priority p q) (by_priority r s) = by_priority (p ∙ r) (omega arith)
Precedes-trans (by_priority p q) (by_age r s t) = by_priority (p ∙ r) (omega arith)
Precedes-trans (by_priority p q) (by_id r s t u) = by_priority (p ∙ r) (omega arith)
Precedes-trans (by_age p q r) (by_breach s t) = by_breach (p ∙ s) t
Precedes-trans (by_age p q r) (by_priority s t) = by_priority (p ∙ s) (omega arith)
Precedes-trans (by_age p q r) (by_age s t u) = by_age (p ∙ s) (q ∙ t) (ground arith)
Precedes-trans (by_age p q r) (by_id s t u v) = by_age (p ∙ s) (q ∙ t) (ground arith)
Precedes-trans (by_id p q r s) (by_breach t u) = by_breach (p ∙ t) u
Precedes-trans (by_id p q r s) (by_priority t u) = by_priority (p ∙ t) (omega arith)
Precedes-trans (by_id p q r s) (by_age t u v) = by_age (p ∙ t) (q ∙ u) (ground arith)
Precedes-trans {a} {b} {c} (by_id p q r s) (by_id t u v w) =
    by_id (p ∙ t) (q ∙ u) (r ∙ v) (text_lt_trans a.id b.id c.id s w)

pub compare_self : (a : QueueKey) → compare_queue_keys a a ≡ pos 0
unfolding compare_queue_keys
compare_self a = ground (arith, text_eq_refl a.id)

pub compare_negative :
    {a b : QueueKey} → Precedes a b → ltb_ℤ (compare_queue_keys a b) (pos 0) ≡ true
unfolding compare_queue_keys
compare_negative (by_breach p q) = ground arith
compare_negative (by_priority p q) = ground arith
compare_negative (by_age p q r) = ground arith
compare_negative {a} {b} (by_id p q r s) =
    ground (arith, text_eq_iff a.id b.id, text_lt_irrefl a.id)

pub compare_positive :
    {a b : QueueKey} → Precedes a b → ltb_ℤ (pos 0) (compare_queue_keys b a) ≡ true
unfolding compare_queue_keys
compare_positive (by_breach p q) = ground arith
compare_positive (by_priority p q) = ground arith
compare_positive (by_age p q r) = ground arith
compare_positive {a} {b} (by_id p q r s) =
    ground (arith, text_eq_iff b.id a.id, text_lt_irrefl a.id, text_lt_trans a.id b.id a.id)

pub Precedes-ne : {a b : QueueKey} → Precedes a b → a ≡ b → ⊥
Precedes-ne {a} {b} p e =
    let n : ltb_ℤ (compare_queue_keys b b) (pos 0) ≡ true = rw e at (compare_negative p) in
    ground (arith, compare_self b)

-- The comparator is negative exactly in the published order, and 0 exactly on one key.
pub compare_iff :
    (a b : QueueKey)
    → ((ltb_ℤ (compare_queue_keys a b) (pos 0) ≡ true) ↔ Precedes a b)
      × ((compare_queue_keys a b ≡ pos 0) ↔ (a ≡ b))
compare_iff a b = elim (Precedes-total a b) [
  | inl e ↦
      let z : compare_queue_keys a b ≡ pos 0 = rw e (compare_self b) in
      ((λ h. ground arith, λ p. compare_negative p), (λ _. e, λ _. z))
  | inr (inl p) ↦
      let n = compare_negative p in
      ((λ _. p, λ _. n), (λ z. ground arith, λ e. absurd (Precedes-ne p e)))
  | inr (inr p) ↦
      let n = compare_positive p in
      (
        (λ h. ground arith, λ q. compare_negative q),
        (λ z. ground arith, λ e. absurd (Precedes-ne p (sym e))),
      )
]

-- `a` may stand before `b` exactly when it is `b` or precedes it.
pub at_most_iff : (a b : QueueKey) → (at_most a b ≡ true) ↔ ((a ≡ b) ⊎ Precedes a b)
at_most_iff a b = elim (Precedes-total a b) [
  | inl e ↦
      let z : compare_queue_keys a b ≡ pos 0 = rw e (compare_self b) in
      (λ _. inl e, λ _. ground arith)
  | inr (inl p) ↦ let n = compare_negative p in (λ _. inr p, λ _. ground arith)
  | inr (inr p) ↦
      let n = compare_positive p in
      (
        λ h. absurd (ground arith),
        λ s. elim s [
          | inl e ↦ absurd (Precedes-ne p (sym e))
          | inr q ↦ absurd (Precedes-ne (Precedes-trans q p) refl)
        ],
      )
]

pub at_most_total : (a b : QueueKey) → (at_most a b ≡ true) ⊎ (at_most b a ≡ true)
at_most_total a b = elim (Precedes-total a b) [
  | inl e ↦ inl ((at_most_iff a b).1 (inl e))
  | inr (inl p) ↦ inl ((at_most_iff a b).1 (inr p))
  | inr (inr p) ↦ inr ((at_most_iff b a).1 (inr p))
]

pub at_most_trans :
    (a b c : QueueKey) → at_most a b ≡ true → at_most b c ≡ true → at_most a c ≡ true
at_most_trans a b c h k = elim ((at_most_iff a b).0 h) [
  | inl e ↦ rw e k
  | inr p ↦ elim ((at_most_iff b c).0 k) [
    | inl e ↦ rw (← e) h
    | inr q ↦ (at_most_iff a c).1 (inr (Precedes-trans p q))
  ]
]

pub at_most_antisymm : (a b : QueueKey) → at_most a b ≡ true → at_most b a ≡ true → a ≡ b
at_most_antisymm a b h k = elim ((at_most_iff a b).0 h) [
  | inl e ↦ e
  | inr p ↦ elim ((at_most_iff b a).0 k) [
    | inl e ↦ sym e
    | inr q ↦ absurd (Precedes-ne (Precedes-trans p q) refl)
  ]
]
