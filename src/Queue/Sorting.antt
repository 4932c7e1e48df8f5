-- ===== src/Queue/Sorting.antt =====
-- What `orderQueue` returns.
use mathlib.Core.List.{Perm}
use mathlib.Core.List.Perm
use ledgerdesk.Prelude.{
  ◌≡◌, refl, ap, inl, inr, true, arith, List, [], ◌∷◌, map, All, Bool-cases, Number,
}
use ledgerdesk.Priority.{QueueFeatures, PriorityWeights, ok, >>=-ok}
use ledgerdesk.Queue.{QueueKey, Entry, queue_key, keyed, insert_entry, sort_entries, order_queue}
use ledgerdesk.Queue.Order.{at_most, at_most_total, at_most_trans}

-- Every entry may stand before every later one.
abbrev pub Sorted : List Entry → Type 0
Sorted [] = Unit
Sorted (e ∷ es) = All (λ d. at_most e.key d.key ≡ true) es × Sorted es

insert_entry-All :
    (P : Entry → Type 0) (e : Entry) (es : List Entry) → P e → All P es → All P (insert_entry e es)
unfolding insert_entry
insert_entry-All P e [] p h = (p, tt)
insert_entry-All P e (d ∷ ds) p (q, h) = elim (Bool-cases (at_most e.key d.key)) [
  | inl before ↦ rw before (p, (q, h))
  | inr after ↦ rw after (q, insert_entry-All P e ds p h)
]

pub sort_entries-All : (P : Entry → Type 0) (es : List Entry) → All P es → All P (sort_entries es)
unfolding sort_entries
sort_entries-All P [] h = tt
sort_entries-All P (e ∷ es) (p, h) = insert_entry-All P e _ p (sort_entries-All P es h)

All-weaken :
    (a b : QueueKey) (es : List Entry)
    → at_most a b ≡ true
    → All (λ d. at_most b d.key ≡ true) es
    → All (λ d. at_most a d.key ≡ true) es
All-weaken a b [] h k = tt
All-weaken a b (e ∷ es) h (p, k) = (at_most_trans a b e.key h p, All-weaken a b es h k)

insert_entry-Sorted : (e : Entry) (es : List Entry) → Sorted es → Sorted (insert_entry e es)
unfolding insert_entry
insert_entry-Sorted e [] s = (tt, tt)
insert_entry-Sorted e (d ∷ ds) (h, s) = elim (Bool-cases (at_most e.key d.key)) [
  | inl before ↦ rw before ((before, All-weaken e.key d.key ds before h), (h, s))
  | inr after ↦
      let turned : at_most d.key e.key ≡ true = ground (arith, at_most_total e.key d.key) in
      rw after (
        insert_entry-All (λ c. at_most d.key c.key ≡ true) e ds turned h,
        insert_entry-Sorted e ds s,
      )
]

sort_entries-Sorted : (es : List Entry) → Sorted (sort_entries es)
unfolding sort_entries
sort_entries-Sorted [] = tt
sort_entries-Sorted (e ∷ es) = insert_entry-Sorted e _ (sort_entries-Sorted es)

insert_entry-perm : (e : Entry) (es : List Entry) → Perm (insert_entry e es) (e ∷ es)
unfolding insert_entry
insert_entry-perm e [] = Perm.rfl
insert_entry-perm e (d ∷ ds) = elim (Bool-cases (at_most e.key d.key)) [
  | inl before ↦ rw before Perm.rfl
  | inr after ↦ rw after (Perm.trans (Perm.cons d (insert_entry-perm e ds)) (Perm.swap e d ds))
]

sort_entries-perm : (es : List Entry) → Perm (sort_entries es) es
unfolding sort_entries
sort_entries-perm [] = Perm.rfl
sort_entries-perm (e ∷ es) =
    Perm.trans (insert_entry-perm e (sort_entries es)) (Perm.cons e (sort_entries-perm es))

-- Each entry carries the key that its ticket has.
abbrev pub HasKey : Number → PriorityWeights → Entry → Type 0
HasKey now w e = queue_key e.ticket now w ≡ ok e.key

pub keyed-HasKey :
    (now : Number) (w : PriorityWeights) (ts : List QueueFeatures) {es : List Entry}
    → keyed ts now w ≡ ok es
    → All (HasKey now w) es × (map (λ e. e.ticket) es ≡ ts)
unfolding keyed
keyed-HasKey now w [] {es} h = let e : [] ≡ es = ground arith in rw (← e) (tt, refl)
keyed-HasKey now w (t ∷ ts) {es} h =
    let (k, hk, rest) = >>=-ok (queue_key t now w) _ h in
    let (ds, hd, last) = >>=-ok (keyed ts now w) _ rest in
    let e : record { ticket = t; key = k } ∷ ds ≡ es = ground arith in
    let (all, tickets) = keyed-HasKey now w ts hd in rw (← e) ((hk, all), ap (◌∷◌ t) tickets)

-- What `orderQueue` returns: the tickets given, in the order of their keys.
pub record Ordered (now : Number) (w : PriorityWeights) (ts out : List QueueFeatures) : Type 0 where
  pub entries : List Entry
  pub returned : out ≡ map (λ e. e.ticket) entries
  pub have_keys : All (HasKey now w) entries
  pub sorted : Sorted entries
  pub same_tickets : Perm out ts

-- An ordering that does not throw returns a permutation of the tickets, each before all that its
-- key may stand before.
pub order_queue-Ordered :
    (ts : List QueueFeatures) (now : Number) (w : PriorityWeights) {out : List QueueFeatures}
    → order_queue ts now w ≡ ok out
    → Ordered now w ts out
unfolding order_queue
order_queue-Ordered ts now w {out} h =
    let (es, he, last) = >>=-ok (keyed ts now w) _ h in
    let (have, tickets) = keyed-HasKey now w ts he in
    let e : out ≡ map (λ e. e.ticket) (sort_entries es) = ground arith in
    record {
      entries = sort_entries es;
      returned = e;
      have_keys = sort_entries-All (HasKey now w) es have;
      sorted = sort_entries-Sorted es;
      same_tickets = rw (e, ← tickets) (Perm.map (λ (e : Entry). e.ticket) (sort_entries-perm es));
    }
