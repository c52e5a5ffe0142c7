-- ===== src/Common/Assoc.antt =====
-- A hash map with text keys as an association list. The order of the entries carries no meaning.
use Prim.Native.String.{String}
use text.Mathlib.Text.{◌==◌ as str_eq}
use text.Mathlib.TextEquality.{eq_iff}
use mathlib.Core.Path.{◌≡◌, refl}
use mathlib.Core.Bool.{false}
use mathlib.Core.List.{List, [], ◌∷◌}
use mathlib.Core.Option.{Option, none, some}
use native.Mathlib.Omega.{arith}
use rapira_windows.Common.Tests.{if◌then◌else◌}

module _ {ℓ} {V : Type ℓ} where
  unfoldable pub get : String → List (String × V) → Option V
  get k [] = none
  get k ((j, v) ∷ m) = if str_eq j k then some v else get k m

  unfoldable pub remove : String → List (String × V) → List (String × V)
  remove k [] = []
  remove k ((j, v) ∷ m) = if str_eq j k then m else (j, v) ∷ remove k m

  unfoldable pub insert : String → V → List (String × V) → List (String × V)
  insert k v [] = (k, v) ∷ []
  insert k v ((j, w) ∷ m) = if str_eq j k then (k, v) ∷ m else (j, w) ∷ insert k v m

  -- A key has one entry.
  abbrev pub Distinct : List (String × V) → Type ℓ
  Distinct [] = Unit
  Distinct ((k, v) ∷ m) = (get k m ≡ none) × Distinct m

  pub get-remove-none :
      (k j : String) (m : List (String × V)) → get j m ≡ none → get j (remove k m) ≡ none
  unfolding get remove
  get-remove-none k j [] h = refl
  get-remove-none k j ((i, v) ∷ m) h = ground (arith, get-remove-none k j m, eq_iff i j)

  pub get-remove_self :
      (k : String) (m : List (String × V)) → Distinct m → get k (remove k m) ≡ none
  unfolding get remove
  get-remove_self k [] h = refl
  get-remove_self k ((j, v) ∷ m) h = ground (arith, get-remove_self k m h.1, eq_iff j k, eq_iff k j)

  pub get-remove :
      (k j : String) (m : List (String × V)) → str_eq k j ≡ false → get j (remove k m) ≡ get j m
  unfolding get remove
  get-remove k j [] h = refl
  get-remove k j ((i, v) ∷ m) h =
      ground (arith, get-remove k j m h, eq_iff i k, eq_iff i j, eq_iff k j)

  pub remove-Distinct : (k : String) (m : List (String × V)) → Distinct m → Distinct (remove k m)
  unfolding remove
  remove-Distinct k [] h = tt
  remove-Distinct k ((j, v) ∷ m) h =
      ground (arith, remove-Distinct k m h.1, get-remove-none k j m h.0)

  pub get-insert :
      (k j : String) (v : V) (m : List (String × V))
      → get j (insert k v m) ≡ (if str_eq k j then some v else get j m)
  unfolding get insert
  get-insert k j v [] = refl
  get-insert k j v ((i, w) ∷ m) =
      ground (arith, eq_iff k j, eq_iff i k, eq_iff i j, get-insert k j v m)

  pub insert-Distinct :
      (k : String) (v : V) (m : List (String × V)) → Distinct m → Distinct (insert k v m)
  unfolding insert get
  insert-Distinct k v [] h = (refl, tt)
  insert-Distinct k v ((j, w) ∷ m) h =
      ground (arith, insert-Distinct k v m h.1, get-insert k j v m, eq_iff j k, eq_iff k j)
