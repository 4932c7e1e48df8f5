-- ===== src/Prelude/Decimal.antt =====
-- `String(n)` and `padStart` on natural numbers, and how digit strings of one length compare.
pub mod Digits
use Prim.Native.Nat.{ℕ, zero, suc, ◌+◌, ◌-◌, ◌*◌, ◌/◌, ◌%◌, ◌^◌, ◌≤◌, ◌<◌}
use mathlib.Core.Path.{◌≡◌, refl, sym, ap, ◌∙◌}
use mathlib.Core.Logic.{◌≢◌, ◌⊎◌, inl, inr}
use mathlib.Core.Bool.{Bool, true, false}
use mathlib.Core.List.{List, [], ◌∷◌, ◌++◌}
use native.Mathlib.Nat.{pow-suc}
use native.Mathlib.Omega.{arith}
use ledgerdesk.Prelude.Tests.{if◌then◌else◌, ◌==◌, ltb, Bool-cases}
use ledgerdesk.Prelude.Lists.{length, length-append}
use ledgerdesk.Prelude.Strings.{Text, text_lt}

-- The digits of `n`; the fuel bounds their number.
decimal_from : ℕ → ℕ → Text
decimal_from zero n = []
decimal_from (suc f) n =
    let front = decimal_from f (n / 10) ++ (n % 10 + 48) ∷ [] in
    if ltb n 10 then (n + 48) ∷ [] else front

-- `String(n)`: a number has at most as many digits as one more than itself.
unfoldable pub decimal : ℕ → Text
unfolding decimal_from
decimal n = decimal_from (suc n) n

abbrev replicate : ℕ → ℕ → Text
replicate zero c = []
replicate (suc n) c = c ∷ replicate n c

-- `s.padStart(width, '0')`
unfoldable pub pad_start : ℕ → Text → Text
pad_start width s = replicate (width - length s) 48 ++ s

-- What a string of digits stands for, from a value read before it.
abbrev value_from : ℕ → Text → ℕ
value_from acc [] = acc
value_from acc (c ∷ s) = value_from (acc * 10 + (c - 48)) s

unfoldable pub value : Text → ℕ
value s = value_from 0 s

value_from-append :
    (acc : ℕ) (s : Text) (c : ℕ) → value_from acc (s ++ c ∷ []) ≡ value_from acc s * 10 + (c - 48)
value_from-append acc [] c = refl
value_from-append acc (d ∷ s) c = value_from-append (acc * 10 + (d - 48)) s c

value-decimal_from : (f n : ℕ) → n < f → value_from 0 (decimal_from f n) ≡ n
unfolding decimal_from
value-decimal_from zero n h = absurd (omega arith)
value-decimal_from (suc f) n h = elim (Bool-cases (ltb n 10)) [
  | inl small ↦ rw small (omega arith)
  | inr big ↦ rw big (
      rw (value_from-append 0 (decimal_from f (n / 10)) (n % 10 + 48))
        (rw (value-decimal_from f (n / 10) (ground arith)) (omega arith)))
]

-- Reading back what was printed gives the number.
pub value-decimal : (n : ℕ) → value (decimal n) ≡ n
unfolding value decimal
value-decimal n = value-decimal_from (suc n) n (omega arith)

pub decimal_injective : (m n : ℕ) → decimal m ≡ decimal n → m ≡ n
decimal_injective m n e = sym (value-decimal m) ∙ ap value e ∙ value-decimal n

append-ne-nil : (s : Text) (c : ℕ) → s ++ c ∷ [] ≢ []
append-ne-nil [] c e = cc
append-ne-nil (d ∷ s) c e = cc

pub decimal-ne-nil : (n : ℕ) → decimal n ≢ []
unfolding decimal decimal_from
decimal-ne-nil n e = elim (Bool-cases (ltb n 10)) [
  | inl small ↦ absurd (cc (rw small at (e)))
  | inr big ↦ append-ne-nil (decimal_from n (n / 10)) (n % 10 + 48) (rw big at (e))
]
