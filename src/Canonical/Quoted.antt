-- ===== src/Canonical/Quoted.antt =====
-- Strings in quotes (`JSON.stringify`), read back.
use mathlib.Core.List.{append_assoc}
use ledgerdesk.Prelude.{
  ◌≡◌, refl, ◌≢◌, ℕ, zero, suc, ◌+◌, ◌*◌, ◌/◌, ◌%◌, ◌<◌, Bool, true, false, ◌&&◌, ◌||◌, not, [],
  ◌∷◌, ◌++◌, some, none, length, ◌==◌, ltb, arith, Text, Option, if-cases,
}
use ledgerdesk.Canonical.{
  hex_digit, hex_4, is_high, is_low, starts_low, leads, escape, short, long, quoted_unit, units,
}
use ledgerdesk.Canonical.Reader.{character, hex_value, letter_unit, read_unit, read_text}

hex_value-digit : (n : ℕ) → n < 16 → hex_value (hex_digit n) ≡ n
unfolding hex_digit
hex_value-digit n h = ground arith

hex_digits_sum :
    (c : ℕ)
    → c < 65_536
    → (c / 4096 % 16) * 4096 + (c / 256 % 16) * 256 + (c / 16 % 16) * 16 + c % 16 ≡ c
hex_digits_sum c h = omega arith

read_unit-plain : (c : ℕ) (r : Text) → c ≢ 34 → c ≢ 92 → read_unit (c ∷ r) ≡ character c r
unfolding read_unit
read_unit-plain c r h k = ground arith

read_unit-hex :
    (c : ℕ) (r : Text) → c < 65_536 → read_unit (92 ∷ 117 ∷ hex_4 c ++ r) ≡ character c r
unfolding read_unit hex_4
read_unit-hex c r h =
    rw
      (
        hex_value-digit (c / 4096 % 16) (omega arith),
        hex_value-digit (c / 256 % 16) (omega arith),
        hex_value-digit (c / 16 % 16) (omega arith),
        hex_value-digit (c % 16) (omega arith),
        hex_digits_sum c h,
      )
      refl

-- What the letter of a short escape says, and what stands for itself or for a long escape.
abbrev Spelled : ℕ → Option ℕ → Type 0
Spelled c none = (c ≢ 34) × (c ≢ 92)
Spelled c (some letter) = (letter ≢ 117) × (letter_unit letter ≡ c)

short-Spelled : (c : ℕ) → Spelled c (short c)
short-Spelled c =
    if-cases (Spelled c) (c == 34) (λ e. ground arith)
      (λ a.
        if-cases (Spelled c) (c == 92) (λ e. ground arith)
          (λ b.
            if-cases (Spelled c) (c == 8) (λ e. ground arith)
              (λ _.
                if-cases (Spelled c) (c == 9) (λ e. ground arith)
                  (λ _.
                    if-cases (Spelled c) (c == 10) (λ e. ground arith)
                      (λ _.
                        if-cases (Spelled c) (c == 12) (λ e. ground arith)
                          (λ _.
                            if-cases (Spelled c) (c == 13) (λ e. ground arith)
                              (λ _. ground arith)))))))

read_unit-long : (c : ℕ) (r : Text) → c ≢ 34 → c ≢ 92 → read_unit (long c ++ r) ≡ character c r
unfolding long
read_unit-long c r h k =
    if-cases (λ t. read_unit (t ++ r) ≡ character c r) (ltb c 32 || is_high c || is_low c)
      (λ e. read_unit-hex c r (ground arith)) (λ e. read_unit-plain c r h k)

read_unit-escape :
    (c : ℕ) (o : Option ℕ) (r : Text) → Spelled c o → read_unit (escape c o ++ r) ≡ character c r
unfolding read_unit
read_unit-escape c none r (h, k) = read_unit-long c r h k
read_unit-escape c (some letter) r (h, k) = ground arith

-- A unit that is written as the second half of a pair is no quote and no backslash.
read_unit-quoted_unit :
    (second : Bool) (c : ℕ) (r : Text)
    → (second ≡ true → 127 < c)
    → read_unit (quoted_unit second c ++ r) ≡ character c r
read_unit-quoted_unit true c r h =
    let big = h refl in read_unit-plain c r (omega arith) (omega arith)
read_unit-quoted_unit false c r h = read_unit-escape c (short c) r (short-Spelled c)

abbrev Led : Bool → Text → Type 0
Led second s = second ≡ true → starts_low s ≡ true

raw-above :
    (second : Bool) (c : ℕ) (s : Text) → Led second (c ∷ s) → (second || leads c s) ≡ true → 127 < c
raw-above true c s h e = ground (arith, h refl)
raw-above false c s h e = ground arith

next-Led : (second : Bool) (c : ℕ) (s : Text) → Led (not second && leads c s) s
next-Led true c s e = cc
next-Led false c s e = ground arith

read_text-units :
    (f : ℕ) (second : Bool) (s r : Text)
    → length s < f
    → Led second s
    → read_text f (units second s ++ 34 ∷ r) ≡ some (s, r)
unfolding read_text units read_unit
read_text-units zero second s r h k = absurd (omega arith)
read_text-units (suc f) second [] r h k = refl
read_text-units (suc f) second (c ∷ s) r h k =
    rw
      (append_assoc (quoted_unit (second || leads c s) c) (units (not second && leads c s) s)
        (34 ∷ r))
      (rw
        (read_unit-quoted_unit (second || leads c s) c (units (not second && leads c s) s ++ 34 ∷ r)
          (raw-above second c s k))
        (rw (read_text-units f (not second && leads c s) s r (omega arith) (next-Led second c s))
          refl))

pub read_text-quoted :
    (f : ℕ) (s r : Text) → length s < f → read_text f (units false s ++ 34 ∷ r) ≡ some (s, r)
read_text-quoted f s r h = read_text-units f false s r h (λ e. cc)
