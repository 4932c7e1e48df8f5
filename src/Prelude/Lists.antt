-- ===== src/Prelude/Lists.antt =====
-- Lists measured by native numbers, and the searches of `Array.prototype` by a Boolean test.
use Prim.Native.Nat.{ℕ, suc, ◌+◌}
use mathlib.Core.Path.{◌≡◌}
use mathlib.Core.Bool.{Bool, true, false, ◌&&◌, ◌||◌}
use mathlib.Core.Path.{sym, subst}
use mathlib.Core.Logic.{inl, inr}
use mathlib.Core.List.{Memᴰ, List, [], ◌∷◌, ◌++◌}
use mathlib.Core.Option.{Option, none, some}
use native.Mathlib.Omega.{arith}
use ledgerdesk.Prelude.Tests.{if◌then◌else◌, Bool-cases}

module _ {ℓ} {A : Type ℓ} where
  abbrev pub length : List A → ℕ
  length [] = 0
  length (x ∷ xs) = suc (length xs)

  -- `find`: the first element that passes; `none` is `undefined`.
  abbrev pub find : (A → Bool) → List A → Option A
  find p [] = none
  find p (x ∷ xs) = if p x then some x else find p xs

  -- `filter` with a Boolean test.
  abbrev pub select : (A → Bool) → List A → List A
  select p [] = []
  select p (x ∷ xs) = if p x then x ∷ select p xs else select p xs

  -- `some` and `every`.
  abbrev pub any : (A → Bool) → List A → Bool
  any p [] = false
  any p (x ∷ xs) = p x || any p xs

  abbrev pub all : (A → Bool) → List A → Bool
  all p [] = true
  all p (x ∷ xs) = p x && all p xs

  pub length-append : (xs ys : List A) → length (xs ++ ys) ≡ length xs + length ys
  length-append [] ys = omega arith
  length-append (x ∷ xs) ys = omega (arith, length-append xs ys)

-- A predicate of every element, by recursion.
module _ {ℓ κ} {A : Type ℓ} (P : A → Type κ) where
  abbrev pub All : List A → Type κ
  All [] = Unit
  All (x ∷ xs) = P x × All xs

  pub All-append : (xs ys : List A) → All xs → All ys → All (xs ++ ys)
  All-append [] ys h k = k
  All-append (x ∷ xs) ys (p, h) k = (p, All-append xs ys h k)

  -- An element of a list that satisfies the predicate throughout satisfies it.
  pub All-mem : {x : A} (xs : List A) → All xs → Memᴰ x xs → P x
  All-mem [] h m = elim m [ ]
  All-mem (y ∷ ys) (p, h) (Memᴰ.head e) = subst P (sym e) p
  All-mem (y ∷ ys) (p, h) (Memᴰ.tail m) = All-mem ys h m

module _ {ℓ} {A : Type ℓ} where
  pub find-mem_select :
      (p q : A → Bool) (xs : List A) {x : A}
      → find (λ y. p y && q y) xs ≡ some x
      → Memᴰ x (select p xs)
  find-mem_select p q [] e = cc
  find-mem_select p q (y ∷ ys) e = elim (Bool-cases (p y)) [
    | inr off ↦ rw off (find-mem_select p q ys (rw off at e))
    | inl on ↦ rw on (elim (Bool-cases (q y)) [
      | inl hit ↦ Memᴰ.head (ground arith)
      | inr miss ↦ Memᴰ.tail (find-mem_select p q ys (rw (on, miss) at e))
    ])
  ]
