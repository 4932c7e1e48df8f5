-- ===== src/Queue/Collation.antt =====
-- The stored collation of a key (`storedCollationKey`, `compareStoredRows`) against the comparator.
use ledgerdesk.Prelude.{
  ℕ, ◌-◌, ◌^◌, ◌≤◌, ◌<◌, ◌≡◌, refl, sym, ◌∙◌, ◌↔◌, inl, inr, Bool, true, false, arith, ◌++◌, ◌∷◌,
  length, if◌then◌else◌, ltb, ◌==◌, ℤ, pos, negsuc, ltb_ℤ, Text, text_eq, text_lt, text_eq_iff,
  text_eq_refl, text_lt_irrefl, text_lt_trans, decimal, pad_start, Number,
}
use ledgerdesk.Prelude.Decimal.Digits.{
  text_lt-value, length-decimal_le, pad_start-IsDigits, length-pad_start, value-pad_start,
}
use ledgerdesk.Priority.{QueueFeatures, PriorityWeights, ok, >>=-ok}
use ledgerdesk.Queue.{
  QueueKey, queue_key, compare_queue_keys, stored_collation_key, compare_stored_rows,
  collation_priority_ceiling, collation_time_width,
}
use ledgerdesk.Queue.Keys.{queue_key-le}
use ledgerdesk.Queue.Order.{
  Precedes, by_breach, by_priority, by_age, by_id, Precedes-total, Precedes-trans, Precedes-ne,
  compare_iff,
}

abbrev encode : Bool → ℕ → ℕ → Text → Text
encode breached p c id =
    (if breached then 48 else 49)
    ∷ 124
    ∷ (pad_start 7 (decimal (collation_priority_ceiling - p))
        ++ (124 ∷ (pad_start collation_time_width (decimal c) ++ (124 ∷ id))))

-- A key that the encoding takes, and the text that it gives.
record Fits (k : QueueKey) (s : Text) : Type 0 where
  instant : ℕ
  low : k.priority ≤ collation_priority_ceiling
  created : k.created_at ≡ pos instant
  narrow : length (decimal instant) ≤ collation_time_width
  encoded : s ≡ encode k.breached k.priority instant k.id

stored_collation_key-Fits :
    (k : QueueKey) (z : ℤ) {s : Text} → k.created_at ≡ z → stored_collation_key k ≡ ok s → Fits k s
unfolding stored_collation_key
stored_collation_key-Fits k (pos c) e h = record {
  instant = c;
  low = ground arith;
  created = e;
  narrow = ground arith;
  encoded = ground arith;
}
stored_collation_key-Fits k (negsuc c) e h = absurd (ground arith)

-- Fixed-width fields: the numbers decide, and then what follows.
field_lt :
    (w m n : ℕ) (u v : Text)
    → length (decimal m) ≤ w
    → length (decimal n) ≤ w
    → text_lt (pad_start w (decimal m) ++ u) (pad_start w (decimal n) ++ v)
      ≡ (if m == n then text_lt u v else ltb m n)
field_lt w m n u v p q =
    let widths = length-pad_start w m p ∙ sym (length-pad_start w n q) in
    rw (text_lt-value _ _ u v (pad_start-IsDigits w m) (pad_start-IsDigits w n) widths)
      (rw (value-pad_start w m, value-pad_start w n))

narrow_priority : (p : ℕ) → length (decimal (collation_priority_ceiling - p)) ≤ 7
narrow_priority p = length-decimal_le (collation_priority_ceiling - p) 6 (omega arith)

bar_lt : (u v : Text) → text_lt (124 ∷ u) (124 ∷ v) ≡ text_lt u v
unfolding text_lt
bar_lt u v = refl

encode_lt_breach :
    (p q c d : ℕ) (i j : Text) → text_lt (encode true p c i) (encode false q d j) ≡ true
unfolding text_lt
encode_lt_breach p q c d i j = refl

encode_lt_rest :
    (b : Bool) (p q c d : ℕ) (i j : Text)
    → length (decimal c) ≤ collation_time_width
    → length (decimal d) ≤ collation_time_width
    → text_lt (encode b p c i) (encode b q d j) ≡ (
        if (collation_priority_ceiling - p) == (collation_priority_ceiling - q)
        then (if c == d then text_lt i j else ltb c d)
        else ltb (collation_priority_ceiling - p) (collation_priority_ceiling - q))
unfolding text_lt
encode_lt_rest true p q c d i j m n =
    field_lt 7 _ _ _ _ (narrow_priority p) (narrow_priority q)
    ∙ rw (field_lt collation_time_width c d (124 ∷ i) (124 ∷ j) m n)
encode_lt_rest false p q c d i j m n =
    field_lt 7 _ _ _ _ (narrow_priority p) (narrow_priority q)
    ∙ rw (field_lt collation_time_width c d (124 ∷ i) (124 ∷ j) m n)

same_breach :
    {x y : Bool} (p q c d : ℕ) (i j : Text)
    → x ≡ y
    → length (decimal c) ≤ collation_time_width
    → length (decimal d) ≤ collation_time_width
    → text_lt (encode x p c i) (encode y q d j) ≡ (
        if (collation_priority_ceiling - p) == (collation_priority_ceiling - q)
        then (if c == d then text_lt i j else ltb c d)
        else ltb (collation_priority_ceiling - p) (collation_priority_ceiling - q))
same_breach {x} p q c d i j e m n = rw (← e) (encode_lt_rest x p q c d i j m n)

Precedes-encode_lt :
    {a b : QueueKey} (c d : ℕ)
    → Precedes a b
    → a.created_at ≡ pos c
    → b.created_at ≡ pos d
    → a.priority ≤ collation_priority_ceiling
    → length (decimal c) ≤ collation_time_width
    → length (decimal d) ≤ collation_time_width
    → text_lt (encode a.breached a.priority c a.id) (encode b.breached b.priority d b.id) ≡ true
Precedes-encode_lt {a} {b} c d (by_breach p q) ca cb low m n =
    rw (p, q) (encode_lt_breach a.priority b.priority c d a.id b.id)
Precedes-encode_lt {a} {b} c d (by_priority p q) ca cb low m n =
    same_breach a.priority b.priority c d a.id b.id p m n ∙ ground arith
Precedes-encode_lt {a} {b} c d (by_age p q r) ca cb low m n =
    same_breach a.priority b.priority c d a.id b.id p m n ∙ ground arith
Precedes-encode_lt {a} {b} c d (by_id p q r s) ca cb low m n =
    same_breach a.priority b.priority c d a.id b.id p m n ∙ ground arith

Precedes-Fits :
    {a b : QueueKey} {s t : Text} → Precedes a b → Fits a s → Fits b t → text_lt s t ≡ true
Precedes-Fits p f g =
    rw (f.encoded, g.encoded)
      (Precedes-encode_lt f.instant g.instant p f.created g.created f.low f.narrow g.narrow)

text_lt_asymm : (s t : Text) → text_lt s t ≡ true → text_lt t s ≡ true → ⊥
text_lt_asymm s t h k = ground (arith, text_lt_irrefl s, text_lt_trans s t s h k)

-- The sign of a row comparison, from the order of the two texts.
row_sign : Text → Text → ℤ
row_sign s t = if text_eq s t then pos 0 else if text_lt s t then negsuc 0 else pos 1

Precedes-row_sign :
    {a b : QueueKey} {s t : Text} → Precedes a b → Fits a s → Fits b t → row_sign s t ≡ negsuc 0
unfolding row_sign
Precedes-row_sign {s} {t} p f g =
    ground (arith, Precedes-Fits p f g, text_eq_iff s t, text_lt_irrefl s)

Precedes-row_sign_flip :
    {a b : QueueKey} {s t : Text} → Precedes b a → Fits a s → Fits b t → row_sign s t ≡ pos 1
unfolding row_sign
Precedes-row_sign_flip {s} {t} p f g =
    ground (arith, Precedes-Fits p g f, text_eq_iff s t, text_lt_irrefl s, text_lt_asymm s t)

same-row_sign : {a b : QueueKey} {s t : Text} → a ≡ b → Fits a s → Fits b t → row_sign s t ≡ pos 0
unfolding row_sign
same-row_sign {s} {t} e f g =
    let i : f.instant ≡ g.instant = ground arith in
    let same : s ≡ t = ground arith in rw (same, text_eq_refl)

row_sign_iff :
    (a b : QueueKey) {s t : Text}
    → Fits a s
    → Fits b t
    → ((row_sign s t ≡ pos 0) ↔ (a ≡ b)) × ((ltb_ℤ (row_sign s t) (pos 0) ≡ true) ↔ Precedes a b)
row_sign_iff a b f g = elim (Precedes-total a b) [
  | inl e ↦
      let z = same-row_sign e f g in
      ((λ _. e, λ _. z), (λ h. ground arith, λ p. absurd (Precedes-ne p e)))
  | inr (inl p) ↦
      let z = Precedes-row_sign p f g in
      ((λ h. ground arith, λ e. absurd (Precedes-ne p e)), (λ _. p, λ _. ground arith))
  | inr (inr p) ↦
      let z = Precedes-row_sign_flip p f g in
      (
        (λ h. ground arith, λ e. absurd (Precedes-ne p (sym e))),
        (λ h. ground arith, λ q. absurd (Precedes-ne (Precedes-trans p q) refl)),
      )
]

-- Where both keys fit the encoding, comparing the encoded rows gives 0 exactly where the
-- comparator does, and a negative number exactly where the comparator does.
pub compare_stored_rows-agrees :
    (a b : QueueKey) {z : ℤ}
    → compare_stored_rows a b ≡ ok z
    → ((z ≡ pos 0) ↔ (compare_queue_keys a b ≡ pos 0))
      × ((ltb_ℤ z (pos 0) ≡ true) ↔ (ltb_ℤ (compare_queue_keys a b) (pos 0) ≡ true))
unfolding compare_stored_rows row_sign
compare_stored_rows-agrees a b {z} h =
    let (s, hs, rest) = >>=-ok (stored_collation_key a) _ h in
    let (t, ht, last) = >>=-ok (stored_collation_key b) _ rest in
    let e : row_sign s t ≡ z = ground arith in
    let (zero, minus) =
      row_sign_iff a b (stored_collation_key-Fits a _ refl hs)
        (stored_collation_key-Fits b _ refl ht) in
    let (below, same) = compare_iff a b in
    rw (← e) (
      (λ p. same.1 (zero.0 p), λ p. zero.1 (same.0 p)),
      (λ p. below.1 (minus.0 p), λ p. minus.1 (below.0 p)),
    )

-- A computed key of a ticket that was created before the year 33658 and not before 1970 fits.
pub queue_key-fits :
    (f : QueueFeatures) (now : Number) (w : PriorityWeights) {k : QueueKey} (c : ℕ)
    → queue_key f now w ≡ ok k
    → k.created_at ≡ pos c
    → c < 10 ^ 15
    → (s : Text) × (stored_collation_key k ≡ ok s)
unfolding stored_collation_key
queue_key-fits f now w {k} c h e small =
    let p = queue_key-le f now w h in
    let n : length (decimal c) ≤ 15 = length-decimal_le c 14 small in
    (encode k.breached k.priority c k.id, ground arith)
