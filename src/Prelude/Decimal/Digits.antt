-- ===== src/Prelude/Decimal/Digits.antt =====
-- Padded digit strings of one width, and the numbers that they stand for.
use Prim.Native.Nat.{ℕ, zero, suc, ◌+◌, ◌-◌, ◌*◌, ◌/◌, ◌%◌, ◌^◌, ◌≤◌, ◌<◌}
use mathlib.Core.Path.{◌≡◌, refl, ap, ◌∙◌}
use mathlib.Core.Logic.{inl, inr}
use mathlib.Core.List.{[], ◌∷◌, ◌++◌}
use native.Mathlib.Nat.{pow-suc}
use native.Mathlib.Omega.{arith}
use ledgerdesk.Prelude.Tests.{if◌then◌else◌, ◌==◌, ltb, Bool-cases}
use ledgerdesk.Prelude.Lists.{length, length-append, All, All-append}
use ledgerdesk.Prelude.Strings.{Text, text_lt}
use ledgerdesk.Prelude.Decimal.{
  decimal, decimal_from, replicate, pad_start, value_from, value, value-decimal,
}

abbrev pub IsDigit : ℕ → Type 0
IsDigit c = (48 ≤ c) × (c < 58)

abbrev pub IsDigits : Text → Type 0
IsDigits = All IsDigit

value_from_lt :
    (x y : ℕ) (s t : Text)
    → x < y
    → IsDigits s
    → IsDigits t
    → length s ≡ length t
    → value_from x s < value_from y t
value_from_lt x y [] [] h _ _ _ = h
value_from_lt x y (c ∷ s) (d ∷ t) h (p, ps) (q, qs) e =
    value_from_lt (x * 10 + (c - 48)) (y * 10 + (d - 48)) s t (omega arith) ps qs (omega arith)
value_from_lt x y [] (d ∷ t) h _ _ e = absurd (omega arith)
value_from_lt x y (c ∷ s) [] h _ _ e = absurd (omega arith)

text_lt-value_from :
    (x : ℕ) (s t u v : Text)
    → IsDigits s
    → IsDigits t
    → length s ≡ length t
    → text_lt (s ++ u) (t ++ v) ≡ (
        if value_from x s == value_from x t
        then text_lt u v
        else ltb (value_from x s) (value_from x t))
unfolding text_lt
text_lt-value_from x [] [] u v _ _ _ = ground arith
text_lt-value_from x (c ∷ s) (d ∷ t) u v (p, ps) (q, qs) e = ground (
  arith,
  text_lt-value_from (x * 10 + (c - 48)) s t u v ps qs,
  value_from_lt (x * 10 + (c - 48)) (x * 10 + (d - 48)) s t,
  value_from_lt (x * 10 + (d - 48)) (x * 10 + (c - 48)) t s,
)
text_lt-value_from x [] (d ∷ t) u v _ _ e = absurd (omega arith)
text_lt-value_from x (c ∷ s) [] u v _ _ e = absurd (omega arith)

-- Two digit strings of one length, each with a rest: the numbers decide, and then the rests.
pub text_lt-value :
    (s t u v : Text)
    → IsDigits s
    → IsDigits t
    → length s ≡ length t
    → text_lt (s ++ u) (t ++ v)
      ≡ (if value s == value t then text_lt u v else ltb (value s) (value t))
unfolding value
text_lt-value s t u v p q e = text_lt-value_from 0 s t u v p q e

decimal_from-IsDigits : (f n : ℕ) → IsDigits (decimal_from f n)
unfolding decimal_from
decimal_from-IsDigits zero n = tt
decimal_from-IsDigits (suc f) n = elim (Bool-cases (ltb n 10)) [
  | inl small ↦ rw small ((omega arith, ground arith), tt)
  | inr big ↦ rw big (
      All-append IsDigit (decimal_from f (n / 10)) _ (decimal_from-IsDigits f (n / 10))
        ((omega arith, omega arith), tt))
]

-- One digit more than the number divided by ten.
longer :
    (f n w : ℕ)
    → n < 10 ^ suc w
    → 10 ≤ n
    → ((v : ℕ) → n / 10 < 10 ^ suc v → length (decimal_from f (n / 10)) ≤ suc v)
    → length (decimal_from f (n / 10) ++ (n % 10 + 48) ∷ []) ≤ suc w
longer f n zero h big ih = absurd (omega arith)
longer f n (suc v) h big ih =
    let short = ih v (omega (arith, pow-suc 10 (suc v))) in
    omega (arith, short, length-append (decimal_from f (n / 10)) ((n % 10 + 48) ∷ []))

length-decimal_from : (f n w : ℕ) → n < 10 ^ suc w → length (decimal_from f n) ≤ suc w
unfolding decimal_from
length-decimal_from zero n w h = omega arith
length-decimal_from (suc f) n w h = elim (Bool-cases (ltb n 10)) [
  | inl small ↦ rw small (omega arith)
  | inr big ↦ rw big (longer f n w h (ground arith) (length-decimal_from f (n / 10)))
]

pub length-decimal_le : (n w : ℕ) → n < 10 ^ suc w → length (decimal n) ≤ suc w
unfolding decimal
length-decimal_le n w h = length-decimal_from (suc n) n w h

replicate-IsDigits : (n : ℕ) → IsDigits (replicate n 48)
replicate-IsDigits zero = tt
replicate-IsDigits (suc n) = ((omega arith, omega arith), replicate-IsDigits n)

length-replicate : (n c : ℕ) → length (replicate n c) ≡ n
length-replicate zero c = refl
length-replicate (suc n) c = ap suc (length-replicate n c)

value-replicate : (n : ℕ) (s : Text) → value_from 0 (replicate n 48 ++ s) ≡ value_from 0 s
value-replicate zero s = refl
value-replicate (suc n) s = value-replicate n s

-- A number that fits the width is padded to that width, and keeps its value.
pub pad_start-IsDigits : (w n : ℕ) → IsDigits (pad_start w (decimal n))
unfolding pad_start decimal
pad_start-IsDigits w n =
    All-append IsDigit _ _ (replicate-IsDigits _) (decimal_from-IsDigits (suc n) n)

pub length-pad_start : (w n : ℕ) → length (decimal n) ≤ w → length (pad_start w (decimal n)) ≡ w
unfolding pad_start
length-pad_start w n h = omega (
  arith,
  length-append (replicate (w - length (decimal n)) 48) (decimal n),
  length-replicate (w - length (decimal n)) 48,
)

pub value-pad_start : (w n : ℕ) → value (pad_start w (decimal n)) ≡ n
unfolding pad_start value
value-pad_start w n =
    value-replicate (w - length (decimal n)) (decimal n) ∙ unfold value in value-decimal n

pub decimal-IsDigits : (n : ℕ) → IsDigits (decimal n)
unfolding decimal
decimal-IsDigits n = decimal_from-IsDigits (suc n) n
