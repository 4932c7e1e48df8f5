-- ===== src/Prelude/Members.antt =====
-- The elements of a list that is selected from another, or made of it element by element.
use mathlib.Core.Path.{◌≡◌, refl, sym, ap, ◌∙◌, subst}
use mathlib.Core.Logic.{inl, inr}
use mathlib.Core.Bool.{Bool, true}
use mathlib.Core.List.{List, [], ◌∷◌, map, Memᴰ}
use native.Mathlib.Omega.{arith}
use ledgerdesk.Prelude.Lists.{select, any}
use ledgerdesk.Prelude.Tests.{if◌then◌else◌, Bool-cases}
use ledgerdesk.Prelude.Strings.{Text}

module _ {A : Type 0} where
  pub Mem-select :
      (f : A → Bool) (xs : List A) {x : A} → Memᴰ x (select f xs) → Memᴰ x xs × (f x ≡ true)
  Mem-select f [] m = elim m [ ]
  Mem-select f (y ∷ ys) {x} m = elim (Bool-cases (f y)) [
    | inl on ↦ elim (subst (λ b. Memᴰ x (if b then y ∷ select f ys else select f ys)) on m) [
      | Memᴰ.head e ↦ (Memᴰ.head e, ap f e ∙ on)
      | Memᴰ.tail n ↦ let (k, h) = Mem-select f ys n in (Memᴰ.tail k, h)
    ]
    | inr off ↦
        let (k, h) =
          Mem-select f ys
            (subst (λ b. Memᴰ x (if b then y ∷ select f ys else select f ys)) off m) in
        (Memᴰ.tail k, h)
  ]

  pub select-Mem :
      (f : A → Bool) (xs : List A) {x : A} → Memᴰ x xs → f x ≡ true → Memᴰ x (select f xs)
  select-Mem f [] m h = elim m [ ]
  select-Mem f (y ∷ ys) (Memᴰ.head e) h = rw (sym (ap f e) ∙ h) (Memᴰ.head e)
  select-Mem f (y ∷ ys) (Memᴰ.tail m) h = elim (Bool-cases (f y)) [
    | inl on ↦ rw on (Memᴰ.tail (select-Mem f ys m h))
    | inr off ↦ rw off (select-Mem f ys m h)
  ]

  pub any-Mem : (f : A → Bool) (xs : List A) → any f xs ≡ true → (x : A) × Memᴰ x xs × (f x ≡ true)
  any-Mem f [] h = cc
  any-Mem f (y ∷ ys) h = elim (Bool-cases (f y)) [
    | inl on ↦ (y, Memᴰ.head refl, on)
    | inr off ↦ let (x, m, k) = any-Mem f ys (rw off at h) in (x, Memᴰ.tail m, k)
  ]

  pub Mem-any : (f : A → Bool) (xs : List A) {x : A} → Memᴰ x xs → f x ≡ true → any f xs ≡ true
  Mem-any f [] m h = elim m [ ]
  Mem-any f (y ∷ ys) (Memᴰ.head e) h = rw (sym (ap f e) ∙ h) refl
  Mem-any f (y ∷ ys) (Memᴰ.tail m) h = ground (arith, Mem-any f ys m h)

  module _ (f : A → Text) where
    pub Mem-map : (xs : List A) {x : A} → Memᴰ x xs → Memᴰ (f x) (map f xs)
    Mem-map [] m = elim m [ ]
    Mem-map (y ∷ ys) (Memᴰ.head e) = Memᴰ.head (ap f e)
    Mem-map (y ∷ ys) (Memᴰ.tail m) = Memᴰ.tail (Mem-map ys m)

    pub map-Mem : (xs : List A) {t : Text} → Memᴰ t (map f xs) → (x : A) × Memᴰ x xs × (t ≡ f x)
    map-Mem [] m = elim m [ ]
    map-Mem (y ∷ ys) (Memᴰ.head e) = (y, Memᴰ.head refl, e)
    map-Mem (y ∷ ys) (Memᴰ.tail m) = let (x, k, e) = map-Mem ys m in (x, Memᴰ.tail k, e)
