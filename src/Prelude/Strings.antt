-- ===== src/Prelude/Strings.antt =====
-- A JavaScript string: its UTF-16 code units, as `===`, `<` and `.length` see them.
use Prim.Native.Nat.{ℕ}
use Prim.Native.Char.{code}
use Prim.Native.String.{String}
use mathlib.Core.Path.{◌≡◌, refl}
use mathlib.Core.Logic.{◌↔◌, ◌⊎◌, inl, inr}
use mathlib.Core.Bool.{Bool, true, false, ◌&&◌, ◌||◌}
use mathlib.Core.List.{List, [], ◌∷◌}
use native.Mathlib.Omega.{arith}
use ledgerdesk.Prelude.Lists.{All}
use ledgerdesk.Prelude.Tests.{if◌then◌else◌, ◌==◌, ltb, leb, Bool-cases}

abbrev pub Text : Type 0
Text = List ℕ

-- The code units of an ASCII literal.
abbrev pub text : String → Text
text String.[] = []
text (String.◌∷◌ c s) = code c ∷ text s

-- The white space and line terminators that `trim` removes.
unfoldable pub is_space : ℕ → Bool
is_space c =
    (leb 9 c && leb c 13)
    || (c == 32 || c == 160 || c == 5760 || (leb 8192 c && leb c 8202))
    || (c == 8232 || c == 8233 || c == 8239 || c == 8287 || c == 12288 || c == 65279)

abbrev pub trim_start : Text → Text
trim_start [] = []
trim_start (c ∷ s) = if is_space c then trim_start s else c ∷ s

-- A space goes if nothing is left after it.
abbrev attach : ℕ → Text → Text
attach c [] = if is_space c then [] else c ∷ []
attach c (d ∷ s) = c ∷ d ∷ s

abbrev pub trim_end : Text → Text
trim_end [] = []
trim_end (c ∷ s) = attach c (trim_end s)

-- `s.trim()`
abbrev pub trim : Text → Text
trim s = trim_end (trim_start s)

attach-visible : (c : ℕ) (s : Text) → is_space c ≡ false → attach c s ≡ c ∷ s
attach-visible c [] h = rw h refl
attach-visible c (d ∷ s) h = refl

trim_end-attach : (c : ℕ) (s : Text) → trim_end s ≡ s → trim_end (attach c s) ≡ attach c s
trim_end-attach c [] h = elim (Bool-cases (is_space c)) [
  | inl e ↦ rw e refl
  | inr e ↦ rw e (rw e refl)
]
trim_end-attach c (d ∷ s) h = rw h refl

trim_end-again : (s : Text) → trim_end (trim_end s) ≡ trim_end s
trim_end-again [] = refl
trim_end-again (c ∷ s) = trim_end-attach c (trim_end s) (trim_end-again s)

-- What is trimmed has nothing left to trim.
pub trim_idempotent : (s : Text) → trim (trim s) ≡ trim s
trim_idempotent [] = refl
trim_idempotent (c ∷ s) = elim (Bool-cases (is_space c)) [
  | inl e ↦ rw e (trim_idempotent s)
  | inr e ↦
      rw (e, attach-visible c (trim_end s) e, e, trim_end-again s, attach-visible c (trim_end s) e)
        refl
]

trim_end-solid : (s : Text) → All (λ c. is_space c ≡ false) s → trim_end s ≡ s
trim_end-solid [] h = refl
trim_end-solid (c ∷ s) (p, h) = rw (trim_end-solid s h) (attach-visible c s p)

-- Nothing is trimmed from a text without white space.
pub trim_solid : (s : Text) → All (λ c. is_space c ≡ false) s → trim s ≡ s
trim_solid [] h = refl
trim_solid (c ∷ s) (p, h) = rw p (trim_end-solid (c ∷ s) (p, h))

-- `s === t`
unfoldable pub text_eq : Text → Text → Bool
text_eq [] [] = true
text_eq (a ∷ s) (b ∷ t) = (a == b) && text_eq s t
text_eq _ _ = false

-- `s < t`: the first code units that differ decide, and a prefix is smaller.
unfoldable pub text_lt : Text → Text → Bool
text_lt s [] = false
text_lt [] (b ∷ t) = true
text_lt (a ∷ s) (b ∷ t) = if a == b then text_lt s t else ltb a b

pub text_eq_refl : (s : Text) → text_eq s s ≡ true
unfolding text_eq
text_eq_refl [] = refl
text_eq_refl (a ∷ s) = ground (arith, text_eq_refl s)

text_eq_sound : (s t : Text) → text_eq s t ≡ true → s ≡ t
unfolding text_eq
text_eq_sound [] [] h = refl
text_eq_sound (a ∷ s) (b ∷ t) h = ground (arith, text_eq_sound s t)
text_eq_sound [] (b ∷ t) h = cc
text_eq_sound (a ∷ s) [] h = cc

pub text_eq_iff : (s t : Text) → (text_eq s t ≡ true) ↔ (s ≡ t)
text_eq_iff s t = (text_eq_sound s t, λ e. rw e (text_eq_refl t))

pub text_lt_irrefl : (s : Text) → text_lt s s ≡ false
unfolding text_lt
text_lt_irrefl [] = refl
text_lt_irrefl (a ∷ s) = ground (arith, text_lt_irrefl s)

pub text_lt_trans : (s t u : Text) → text_lt s t ≡ true → text_lt t u ≡ true → text_lt s u ≡ true
unfolding text_lt
text_lt_trans s t [] h k = ground arith
text_lt_trans s [] (c ∷ u) h k = cc
text_lt_trans [] (b ∷ t) (c ∷ u) h k = refl
text_lt_trans (a ∷ s) (b ∷ t) (c ∷ u) h k = ground (arith, text_lt_trans s t u)

pub text_lt_total : (s t : Text) → (s ≡ t) ⊎ ((text_lt s t ≡ true) ⊎ (text_lt t s ≡ true))
unfolding text_lt
text_lt_total [] [] = inl refl
text_lt_total [] (b ∷ t) = inr (inl refl)
text_lt_total (a ∷ s) [] = inr (inr refl)
text_lt_total (a ∷ s) (b ∷ t) = ground (arith, text_lt_total s t)
