-- ===== src/Authority/Listed.antt =====
-- The elements of the lists of declarations: sorting keeps them, and a set of one value has one.
use mathlib.Core.Path.{subst}
use mathlib.Core.List.{Memᴰ}
use ledgerdesk.Prelude.{
  ◌≡◌, refl, sym, ◌∙◌, ◌↔◌, ◌⊎◌, inl, inr, true, List, [], ◌∷◌, all, if◌then◌else◌, Text, text_eq,
  text_eq_iff, Bool-cases, arith,
}
use ledgerdesk.Authority.Declarations.{
  Investiture, is_single, scalar_lt, insert_investiture, sort_investitures,
}
use ledgerdesk.Authority.Grants.{is_there}

module _ {A : Type 0} where
  pub Mem-there : (xs : List A) {x : A} → Memᴰ x xs → is_there xs ≡ true
  Mem-there [] m = elim m [ ]
  Mem-there (y ∷ ys) m = refl

  pub there-Mem : (xs : List A) → is_there xs ≡ true → (x : A) × Memᴰ x xs
  there-Mem [] h = cc
  there-Mem (y ∷ ys) h = (y, Memᴰ.head refl)

all-Mem : (x : Text) (xs : List Text) {y : Text} → all (text_eq x) xs ≡ true → Memᴰ y xs → x ≡ y
all-Mem x [] h m = elim m [ ]
all-Mem x (z ∷ zs) h m = elim (Bool-cases (text_eq x z)) [
  | inr off ↦ absurd (ground arith)
  | inl on ↦ elim m [
    | Memᴰ.head e ↦ (text_eq_iff x z).0 on ∙ sym e
    | Memᴰ.tail n ↦ all-Mem x zs (rw on at h) n
  ]
]

Mem-all : (x : Text) (xs : List Text) → ((y : Text) → Memᴰ y xs → x ≡ y) → all (text_eq x) xs ≡ true
Mem-all x [] h = refl
Mem-all x (z ∷ zs) h =
    rw ((text_eq_iff x z).1 (h z (Memᴰ.head refl))) (Mem-all x zs (λ y m. h y (Memᴰ.tail m)))

is_single-same : (xs : List Text) {a b : Text} → is_single xs ≡ true → Memᴰ a xs → Memᴰ b xs → a ≡ b
is_single-same [] h m n = elim m [ ]
is_single-same (x ∷ xs) h (Memᴰ.head e) (Memᴰ.head d) = e ∙ sym d
is_single-same (x ∷ xs) h (Memᴰ.head e) (Memᴰ.tail n) = e ∙ all-Mem x xs h n
is_single-same (x ∷ xs) h (Memᴰ.tail m) (Memᴰ.head d) = sym (all-Mem x xs h m) ∙ sym d
is_single-same (x ∷ xs) h (Memᴰ.tail m) (Memᴰ.tail n) = sym (all-Mem x xs h m) ∙ all-Mem x xs h n

-- A list that is there, and all of whose elements are of a single one, is single.
pub is_single-within :
    (xs ys : List Text) {a : Text}
    → is_single xs ≡ true
    → Memᴰ a ys
    → ((y : Text) → Memᴰ y ys → Memᴰ y xs)
    → is_single ys ≡ true
is_single-within xs [] h m inside = elim m [ ]
is_single-within xs (y ∷ ys) h m inside =
    Mem-all y ys (λ z n. is_single-same xs h (inside y (Memᴰ.head refl)) (inside z (Memᴰ.tail n)))

module _ (x : Investiture) where
  Mem-insert :
      (i : Investiture) (is : List Investiture)
      → Memᴰ x (insert_investiture i is)
      → (x ≡ i) ⊎ Memᴰ x is
  Mem-insert i [] (Memᴰ.head e) = inl e
  Mem-insert i [] (Memᴰ.tail m) = elim m [ ]
  Mem-insert i (j ∷ js) m = elim (Bool-cases (scalar_lt j.id i.id)) [
    | inl on ↦
        elim (subst (λ b. Memᴰ x (if b then j ∷ insert_investiture i js else i ∷ j ∷ js)) on m) [
          | Memᴰ.head e ↦ inr (Memᴰ.head e)
          | Memᴰ.tail n ↦ elim (Mem-insert i js n) [ inl e ↦ inl e | inr k ↦ inr (Memᴰ.tail k) ]
        ]
    | inr off ↦
        elim (subst (λ b. Memᴰ x (if b then j ∷ insert_investiture i js else i ∷ j ∷ js)) off m) [
          | Memᴰ.head e ↦ inl e
          | Memᴰ.tail n ↦ inr n
        ]
  ]

  insert-Mem :
      (i : Investiture) (is : List Investiture)
      → (x ≡ i) ⊎ Memᴰ x is
      → Memᴰ x (insert_investiture i is)
  insert-Mem i [] (inl e) = Memᴰ.head e
  insert-Mem i [] (inr m) = elim m [ ]
  insert-Mem i (j ∷ js) either = elim (Bool-cases (scalar_lt j.id i.id)) [
    | inl on ↦ rw on (elim either [
      | inl e ↦ Memᴰ.tail (insert-Mem i js (inl e))
      | inr m ↦ elim m [
        | Memᴰ.head e ↦ Memᴰ.head e
        | Memᴰ.tail n ↦ Memᴰ.tail (insert-Mem i js (inr n))
      ]
    ])
    | inr off ↦ rw off (elim either [ inl e ↦ Memᴰ.head e | inr m ↦ Memᴰ.tail m ])
  ]

  pub Mem-sort : (is : List Investiture) → Memᴰ x (sort_investitures is) ↔ Memᴰ x is
  unfolding sort_investitures
  Mem-sort [] = (λ m. m, λ m. m)
  Mem-sort (i ∷ is) = (
    λ m. elim (Mem-insert i (sort_investitures is) m) [
      | inl e ↦ Memᴰ.head e
      | inr k ↦ Memᴰ.tail ((Mem-sort is).0 k)
    ],
    λ m.
        insert-Mem i (sort_investitures is)
          (elim m [ Memᴰ.head e ↦ inl e | Memᴰ.tail n ↦ inr ((Mem-sort is).1 n) ]),
  )
