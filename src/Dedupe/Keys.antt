-- ===== src/Dedupe/Keys.antt =====
-- `dedupeKey`: what can be read back from a key.
use mathlib.Core.Path.{subst}
use ledgerdesk.Prelude.{
  ℕ, suc, ◌≡◌, ◌≢◌, refl, sym, ap, [], ◌∷◌, ◌++◌, All, arith, ℤ, pos, negsuc, Text,
  decimal_injective,
}
use ledgerdesk.Prelude.Decimal.Digits.{IsDigits, decimal-IsDigits}
use ledgerdesk.Dedupe.{int_text, content_key, dedupe_key}

-- No colon, as in a hexadecimal digest and in a number.
abbrev pub Plain : Text → Type 0
Plain = All (λ (c : ℕ). c ≢ 58)

tail_same : {a b : ℕ} {s t : Text} → a ∷ s ≡ b ∷ t → s ≡ t
tail_same h = ground arith

head_same : {a b : ℕ} {s t : Text} → a ∷ s ≡ b ∷ t → a ≡ b
head_same h = ground arith

-- A colon after the last one.
not_Plain : {C : Type 0} (ys v : Text) → Plain (ys ++ (58 ∷ v)) → C
not_Plain [] v (p, h) = absurd (p refl)
not_Plain (y ∷ ys) v (p, h) = not_Plain ys v h

last_colon :
    (xs ys : Text) {u v : Text}
    → Plain u
    → Plain v
    → xs ++ (58 ∷ u) ≡ ys ++ (58 ∷ v)
    → (xs ≡ ys) × (u ≡ v)
last_colon [] [] p q h = (refl, tail_same h)
last_colon [] (y ∷ ys) {u} {v} p q h = not_Plain ys v (subst Plain (tail_same h) p)
last_colon (x ∷ xs) [] {u} {v} p q h = not_Plain xs u (subst Plain (sym (tail_same h)) q)
last_colon (x ∷ xs) (y ∷ ys) p q h =
    let (same, rest) = last_colon xs ys p q (tail_same h) in (rw (head_same h, same) refl, rest)

IsDigits-Plain : (s : Text) → IsDigits s → Plain s
IsDigits-Plain [] h = tt
IsDigits-Plain (c ∷ s) ((l, u), h) = (λ e. absurd (omega arith), IsDigits-Plain s h)

int_text-Plain : (i : ℤ) → Plain (int_text i)
unfolding int_text
int_text-Plain (pos n) = IsDigits-Plain _ (decimal-IsDigits n)
int_text-Plain (negsuc n) = (λ e. absurd (omega arith), IsDigits-Plain _ (decimal-IsDigits (suc n)))

-- A number's first digit is not a minus sign.
no_sign : {C : Type 0} (s t : Text) → IsDigits s → s ≡ 45 ∷ t → C
no_sign [] t h e = cc
no_sign (c ∷ s) t ((l, u), h) e = absurd (omega (arith, head_same e))

int_text_injective : (i j : ℤ) → int_text i ≡ int_text j → i ≡ j
unfolding int_text
int_text_injective (pos m) (pos n) h = ap pos (decimal_injective m n h)
int_text_injective (pos m) (negsuc n) h = no_sign _ _ (decimal-IsDigits m) h
int_text_injective (negsuc m) (pos n) h = no_sign _ _ (decimal-IsDigits n) (sym h)
int_text_injective (negsuc m) (negsuc n) h =
    ap negsuc (omega (arith, decimal_injective (suc m) (suc n) (tail_same h)))

-- Two keys that are equal name one instant, whatever else they are made of.
pub dedupe_key-anchor :
    (org sha org' sha' : Text) (a b : ℤ) → dedupe_key org sha a ≡ dedupe_key org' sha' b → a ≡ b
unfolding dedupe_key
dedupe_key-anchor org sha org' sha' a b h =
    int_text_injective a b
      (last_colon (content_key org sha) (content_key org' sha') (int_text-Plain a)
        (int_text-Plain b) h).1

-- Two keys whose digests have no colon are equal only if they are made of the same organisation,
-- the same digest and the same anchor.
pub dedupe_key_injective :
    (org sha org' sha' : Text) (a b : ℤ)
    → Plain sha
    → Plain sha'
    → dedupe_key org sha a ≡ dedupe_key org' sha' b
    → (org ≡ org') × (sha ≡ sha') × (a ≡ b)
unfolding dedupe_key content_key
dedupe_key_injective org sha org' sha' a b p q h =
    let (front, anchor) =
      last_colon (content_key org sha) (content_key org' sha') (int_text-Plain a) (int_text-Plain b)
        h in
    let (same_org, same_sha) = last_colon org org' p q front in
    (same_org, same_sha, int_text_injective a b anchor)
