-- ===== src/Common/Dict.antt =====
-- Go's `map[string]V` as an association list. `insert` keeps one binding for each key.
use Prim.Native.String.{String}
use mathlib.Core.Path.{◌≡◌, refl}
use mathlib.Core.Option.{Option, none, some}
use mathlib.Core.List.{List, [], ◌∷◌}
use native.Mathlib.Omega.{arith}
use text.Mathlib.Text.{◌==◌}
use text.Mathlib.TextEquality.{eq_iff}
use wsapi_app.Common.Tests.{if◌then◌else◌}

abbrev pub Dict {ℓ} : Type ℓ → Type ℓ
Dict V = List (String × V)

module _ {ℓ} {V : Type ℓ} where
  -- `value, found := entries[key]`
  unfoldable pub lookup : String → Dict V → Option V
  lookup key [] = none
  lookup key ((other, value) ∷ rest) = if other == key then some value else lookup key rest

  -- `entries[key] = value`
  unfoldable pub insert : String → V → Dict V → Dict V
  insert key value [] = (key, value) ∷ []
  insert key value ((other, old) ∷ rest) =
      if other == key then (key, value) ∷ rest else (other, old) ∷ insert key value rest

  -- `delete(entries, key)`
  unfoldable pub remove : String → Dict V → Dict V
  remove key [] = []
  remove key ((other, old) ∷ rest) =
      let rest' = remove key rest in if other == key then rest' else (other, old) ∷ rest'

  pub lookup-insert :
      (k key : String) (value : V) (entries : Dict V)
      → lookup key (insert k value entries) ≡ (if k == key then some value else lookup key entries)
  unfolding lookup insert
  lookup-insert k key value [] = refl
  lookup-insert k key value ((other, old) ∷ rest) =
      ground (arith, lookup-insert k key value rest, eq_iff other k, eq_iff other key, eq_iff k key)

  pub lookup-remove :
      (k j : String) (m : Dict V) → lookup j (remove k m) ≡ (if k == j then none else lookup j m)
  unfolding lookup remove
  lookup-remove k j [] = ground arith
  lookup-remove k j ((i, w) ∷ m) =
      ground (arith, lookup-remove k j m, eq_iff i k, eq_iff i j, eq_iff k j)

  pub lookup-nil : (k : String) → lookup k [] ≡ none
  unfolding lookup
  lookup-nil k = refl

pub ruleset dict_laws = (lookup-nil, lookup-insert, lookup-remove)
