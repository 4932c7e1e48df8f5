-- ===== src/Prelude/Maps.antt =====
-- A `Map` with string keys, as an association list in the order of insertion.
use mathlib.Core.Path.{◌≡◌, refl}
use mathlib.Core.List.{List, [], ◌∷◌}
use mathlib.Core.Option.{Option, none, some}
use native.Mathlib.Omega.{arith}
use ledgerdesk.Prelude.Tests.{if◌then◌else◌}
use ledgerdesk.Prelude.Strings.{Text, text_eq, text_eq_iff}

abbrev pub Map {ℓ} : Type ℓ → Type ℓ
Map V = List (Text × V)

module _ {ℓ} {V : Type ℓ} where
  -- `m.get(k)`
  unfoldable pub get : Text → Map V → Option V
  get k [] = none
  get k ((j, v) ∷ m) = if text_eq j k then some v else get k m

  -- `m.set(k, v)`: a key that is there keeps its place.
  unfoldable pub put : Text → V → Map V → Map V
  put k v [] = (k, v) ∷ []
  put k v ((j, w) ∷ m) = if text_eq j k then (j, v) ∷ m else (j, w) ∷ put k v m

  -- `m.delete(k)`
  unfoldable pub remove : Text → Map V → Map V
  remove k [] = []
  remove k ((j, w) ∷ m) = if text_eq j k then remove k m else (j, w) ∷ remove k m

  pub get-put :
      (k j : Text) (v : V) (m : Map V)
      → get j (put k v m) ≡ (if text_eq k j then some v else get j m)
  unfolding get put
  get-put k j v [] = refl
  get-put k j v ((i, w) ∷ m) =
      ground (arith, text_eq_iff k j, text_eq_iff i k, text_eq_iff i j, get-put k j v m)

  pub get-remove :
      (k j : Text) (m : Map V) → get j (remove k m) ≡ (if text_eq k j then none else get j m)
  unfolding get remove
  get-remove k j [] = ground arith
  get-remove k j ((i, w) ∷ m) =
      ground (arith, text_eq_iff k j, text_eq_iff i k, text_eq_iff i j, get-remove k j m)
