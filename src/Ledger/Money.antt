-- ===== src/Ledger/Money.antt =====
-- Amounts of money between numbers and text: `formatAud` of src/agents/canonical.ts and
-- `microFromNumericText` of src/agents/ledger/pg.ts. An amount is an exact integer of millionths.
use ledgerdesk.Prelude.{
  ◌≡◌, refl, ap, ◌∙◌, ◌≢◌, ℕ, zero, suc, ◌+◌, ◌*◌, ◌/◌, ◌%◌, Bool, true, false, ◌&&◌, [], ◌∷◌, ◌++◌,
  All, All-append, all, leb, ◌==◌, if◌then◌else◌, Text, trim, trim_solid, is_space, ℤ, pos, negsuc,
  length, arith,
}
use ledgerdesk.Prelude.Decimal.{decimal, pad_start, value, value-decimal, decimal-ne-nil}
use ledgerdesk.Prelude.Decimal.Digits.{
  IsDigit, IsDigits, decimal-IsDigits, pad_start-IsDigits, length-pad_start, length-decimal_le,
  value-pad_start,
}
use ledgerdesk.Prelude.Checked.{Checked, ok, throws, type_error}
use ledgerdesk.Canonical.{aud_digits, format_aud}

-- The two sides of the first `.`; without one the second is empty.
abbrev pub before_dot : Text → Text
before_dot [] = []
before_dot (c ∷ s) = if c == 46 then [] else c ∷ before_dot s

abbrev pub after_dot : Text → Text
after_dot [] = []
after_dot (c ∷ s) = if c == 46 then s else after_dot s

-- `/^\d*$/`
abbrev pub is_digits : Text → Bool
is_digits s = all (λ c. leb 48 c && leb c 57) s

-- `s.slice(0, n)`
abbrev pub take : ℕ → Text → Text
take zero s = []
take (suc n) [] = []
take (suc n) (c ∷ s) = c ∷ take n s

-- `s.padEnd(n, '0')`
abbrev pub pad_end : ℕ → Text → Text
pad_end zero s = s
pad_end (suc n) [] = 48 ∷ pad_end n []
pad_end (suc n) (c ∷ s) = c ∷ pad_end n s

abbrev pub negated : ℕ → ℤ
negated zero = pos 0
negated (suc n) = negsuc n

-- The text after the sign.
unfoldable pub micro_unsigned : Text → Checked ℕ
unfolding value
micro_unsigned digits =
    let whole = before_dot digits in
    let fraction = before_dot (after_dot digits) in
    if is_digits whole && is_digits fraction
    then ok (value whole * 1_000_000 + value (pad_end 6 (take 6 fraction)))
    else throws type_error

abbrev pub map_checked {ℓ κ} : {A : Type ℓ} {B : Type κ} → (A → B) → Checked A → Checked B
map_checked f (throws t) = throws t
map_checked f (ok a) = ok (f a)

unfoldable pub micro_signed : Text → Checked ℤ
unfolding micro_unsigned
micro_signed [] = map_checked pos (micro_unsigned [])
micro_signed (c ∷ s) =
    if c == 45
    then map_checked negated (micro_unsigned s)
    else map_checked pos (micro_unsigned (c ∷ s))

unfoldable pub micro_from_numeric_text : Text → Checked ℤ
unfolding micro_signed
micro_from_numeric_text text = micro_signed (trim text)

before_dot-digits : (s r : Text) → IsDigits s → before_dot (s ++ 46 ∷ r) ≡ s
before_dot-digits [] r h = refl
before_dot-digits (c ∷ s) r (d, h) = rw (before_dot-digits s r h) (ground arith)

before_dot-all : (s : Text) → IsDigits s → before_dot s ≡ s
before_dot-all [] h = refl
before_dot-all (c ∷ s) (d, h) = rw (before_dot-all s h) (ground arith)

after_dot-digits : (s r : Text) → IsDigits s → after_dot (s ++ 46 ∷ r) ≡ r
after_dot-digits [] r h = refl
after_dot-digits (c ∷ s) r (d, h) = rw (after_dot-digits s r h) (ground arith)

is_digits-all : (s : Text) → IsDigits s → is_digits s ≡ true
is_digits-all [] h = refl
is_digits-all (c ∷ s) (d, h) = ground (arith, is_digits-all s h)

take-length : (n : ℕ) (s : Text) → length s ≡ n → take n s ≡ s
take-length zero [] h = refl
take-length zero (c ∷ s) h = absurd (omega (arith, h))
take-length (suc n) [] h = refl
take-length (suc n) (c ∷ s) h = ap (λ t. c ∷ t) (take-length n s (omega (arith, h)))

pad_end-length : (n : ℕ) (s : Text) → length s ≡ n → pad_end n s ≡ s
pad_end-length zero s h = refl
pad_end-length (suc n) [] h = absurd (omega (arith, h))
pad_end-length (suc n) (c ∷ s) h = ap (λ t. c ∷ t) (pad_end-length n s (omega (arith, h)))

fraction_length : (n : ℕ) → length (pad_start 6 (decimal (n % 1_000_000))) ≡ 6
fraction_length n =
    length-pad_start 6 (n % 1_000_000) (length-decimal_le (n % 1_000_000) 5 (omega arith))

micro_unsigned-digits : (n : ℕ) → micro_unsigned (aud_digits n) ≡ ok n
unfolding micro_unsigned aud_digits
micro_unsigned-digits n =
    let w : Text = decimal (n / 1_000_000) in
    let f : Text = pad_start 6 (decimal (n % 1_000_000)) in
    let wd = decimal-IsDigits (n / 1_000_000) in
    let fd = pad_start-IsDigits 6 (n % 1_000_000) in
    let fl = fraction_length n in
    rw
      (
        before_dot-digits w f wd,
        after_dot-digits w f wd,
        before_dot-all f fd,
        is_digits-all w wd,
        is_digits-all f fd,
        take-length 6 f fl,
        pad_end-length 6 f fl,
        value-decimal (n / 1_000_000),
        value-pad_start 6 (n % 1_000_000),
      )
      (ground arith)

digit-solid : (c : ℕ) → IsDigit c → is_space c ≡ false
unfolding is_space
digit-solid c (l, u) = ground arith

digits-solid : (s : Text) → IsDigits s → All (λ c. is_space c ≡ false) s
digits-solid [] h = tt
digits-solid (c ∷ s) (d, h) = (digit-solid c d, digits-solid s h)

aud_digits-solid : (n : ℕ) → All (λ c. is_space c ≡ false) (aud_digits n)
unfolding aud_digits is_space
aud_digits-solid n =
    All-append (λ c. is_space c ≡ false) (decimal (n / 1_000_000))
      (46 ∷ pad_start 6 (decimal (n % 1_000_000)))
      (digits-solid (decimal (n / 1_000_000)) (decimal-IsDigits (n / 1_000_000)))
      (
        refl,
        digits-solid (pad_start 6 (decimal (n % 1_000_000))) (pad_start-IsDigits 6 (n % 1_000_000)),
      )

-- A text that starts with a digit has no sign.
micro_signed-unsigned :
    (w r : Text)
    → w ≢ []
    → IsDigits w
    → micro_signed (w ++ r) ≡ map_checked pos (micro_unsigned (w ++ r))
unfolding micro_signed
micro_signed-unsigned [] r n h = absurd (n refl)
micro_signed-unsigned (c ∷ w) r n ((l, u), h) = ground arith

micro_signed-aud : (n : ℕ) → micro_signed (aud_digits n) ≡ ok (pos n)
unfolding aud_digits
micro_signed-aud n =
    micro_signed-unsigned (decimal (n / 1_000_000)) (46 ∷ pad_start 6 (decimal (n % 1_000_000)))
      (decimal-ne-nil (n / 1_000_000)) (decimal-IsDigits (n / 1_000_000))
    ∙ ap (map_checked pos) (micro_unsigned-digits n)

signed-minus : (s : Text) → micro_signed (45 ∷ s) ≡ map_checked negated (micro_unsigned s)
unfolding micro_signed
signed-minus s = refl

negated_next : (n : ℕ) → negated (n + 1) ≡ negsuc n
negated_next n = ground arith

-- Reading an amount that `formatAud` wrote gives the amount back.
pub micro_from_numeric_text-format_aud :
    (amount : ℤ) → micro_from_numeric_text (format_aud amount) ≡ ok amount
unfolding micro_from_numeric_text format_aud
micro_from_numeric_text-format_aud (pos n) =
    ap micro_signed (trim_solid (aud_digits n) (aud_digits-solid n)) ∙ micro_signed-aud n
micro_from_numeric_text-format_aud (negsuc n) =
    ap micro_signed
      (trim_solid (45 ∷ aud_digits (n + 1)) (unfold is_space in refl, aud_digits-solid (n + 1)))
    ∙ signed-minus (aud_digits (n + 1))
    ∙ ap (map_checked negated) (micro_unsigned-digits (n + 1))
    ∙ ap ok (negated_next n)
