-- ===== src/Queue/Reopen.antt =====
-- The clock of a ticket that is opened again.
use mathlib.Core.Path.{subst}
use ledgerdesk.Prelude.{
  ◌≡◌, refl, sym, ◌↔◌, [], true, false, arith, ℤ, pos, ◌+ℤ◌, ltb_ℤ, leb_ℤ, int_laws, eq_of_parts,
  ◌-ℤ◌, Bool, if◌then◌else◌,
}
use ledgerdesk.Priority.{QueueFeatures, ok, throws, is_breached, normalised_urgency, range_error}
use ledgerdesk.Queue.{apply_reopen}

-- A clock that starts at an instant and runs for a window.
pub record Restarted (f g : QueueFeatures) (at_ms window : ℤ) : Type 0 where
  pub started : g.created_at ≡ at_ms
  pub runs : g.sla_due_at ≡ at_ms +ℤ window
  pub kept : g ≡ record f { created_at = at_ms; sla_due_at = at_ms +ℤ window }
  pub in_time : (t : ℤ) → (is_breached g t ≡ true) ↔ (ltb_ℤ (at_ms +ℤ window) t ≡ true)
  pub calm : (normalised_urgency g at_ms).0.num ≡ 0
  pub no_anomaly : (normalised_urgency g at_ms).1 ≡ []

sub_self : (a : ℤ) → a -ℤ a ≡ pos 0
unfolding ◌-ℤ◌
sub_self a = ground arith

add_sub : (a w : ℤ) → (a +ℤ w) -ℤ a ≡ w
add_sub a w = eq_of_parts _ _ (omega int_laws)

abbrev restart : QueueFeatures → ℤ → ℤ → QueueFeatures
restart f at_ms window = record f { created_at = at_ms; sla_due_at = at_ms +ℤ window }

urgency-restart :
    (f : QueueFeatures) (at_ms window : ℤ)
    → leb_ℤ window (pos 0) ≡ false
    → ((normalised_urgency (restart f at_ms window) at_ms).0.num ≡ 0)
      × ((normalised_urgency (restart f at_ms window) at_ms).1 ≡ [])
unfolding normalised_urgency
urgency-restart f at_ms window h = rw (sub_self at_ms, add_sub at_ms window, h) (ground arith, refl)

apply_reopen-ok :
    (f g : QueueFeatures) (at_ms window : ℤ)
    → apply_reopen f at_ms window ≡ ok g
    → (leb_ℤ window (pos 0) ≡ false) × (g ≡ restart f at_ms window)
unfolding apply_reopen
apply_reopen-ok f g at_ms window h = opened (leb_ℤ window (pos 0)) h
  where
    opened :
        (b : Bool)
        → (if b then throws range_error else ok (restart f at_ms window)) ≡ ok g
        → (b ≡ false) × (g ≡ restart f at_ms window)
    opened true h = cc
    opened false h = (refl, ground arith)

-- A ticket that is opened again has its clock started over: only the two instants change, it is
-- due the window later and breached only after that, and at the start its urgency is 0 with no
-- anomaly.
pub apply_reopen-Restarted :
    (f g : QueueFeatures) (at_ms window : ℤ)
    → apply_reopen f at_ms window ≡ ok g
    → Restarted f g at_ms window
unfolding is_breached
apply_reopen-Restarted f g at_ms window h =
    let (open_window, same) = apply_reopen-ok f g at_ms window h in
    let (calm, quiet) = urgency-restart f at_ms window open_window in
    subst (λ (x : QueueFeatures). Restarted f x at_ms window) (sym same)
      (record {
        started = refl;
        runs = refl;
        kept = refl;
        in_time = λ t. (λ e. e, λ e. e);
        calm = calm;
        no_anomaly = quiet;
      })
