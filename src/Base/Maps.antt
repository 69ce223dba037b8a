-- ===== src/Base/Maps.antt =====
-- A Go map with string keys, as the list of its pairs in the order in which a `range` visits them.
use mathlib.Core.Path.{◌≡◌, refl}
use mathlib.Core.List.{List, [], ◌∷◌}
use mathlib.Core.Option.{Option, none, some}
use native.Mathlib.Omega.{arith}
use cf_app_sd_release.Base.Tests.{if◌then◌else◌}
use cf_app_sd_release.Base.Text.{Str, str_eq, str_eq_iff}

abbrev pub GoMap {ℓ} : Type ℓ → Type ℓ
GoMap V = List (Str × V)

module _ {ℓ} {V : Type ℓ} where
  -- `m[k]` with its `ok`
  unfoldable pub lookup : Str → GoMap V → Option V
  lookup k [] = none
  lookup k ((j, v) ∷ m) = if str_eq j k then some v else lookup k m

  -- `m[k] = v`
  unfoldable pub insert : Str → V → GoMap V → GoMap V
  insert k v [] = (k, v) ∷ []
  insert k v ((j, w) ∷ m) = if str_eq j k then (j, v) ∷ m else (j, w) ∷ insert k v m

  -- `delete(m, k)`
  unfoldable pub delete : Str → GoMap V → GoMap V
  delete k [] = []
  delete k ((j, w) ∷ m) = if str_eq j k then delete k m else (j, w) ∷ delete k m

  -- No key occurs twice.
  abbrev pub IsMap : GoMap V → Type ℓ
  IsMap [] = Unit
  IsMap ((k, v) ∷ m) = (lookup k m ≡ none) × IsMap m

  pub lookup-insert :
      (k j : Str) (v : V) (m : GoMap V)
      → lookup j (insert k v m) ≡ (if str_eq k j then some v else lookup j m)
  unfolding lookup insert
  lookup-insert k j v [] = refl
  lookup-insert k j v ((i, w) ∷ m) =
      ground (arith, str_eq_iff k j, str_eq_iff i k, str_eq_iff i j, lookup-insert k j v m)

  pub lookup-delete :
      (k j : Str) (m : GoMap V) → lookup j (delete k m) ≡ (if str_eq k j then none else lookup j m)
  unfolding lookup delete
  lookup-delete k j [] = ground arith
  lookup-delete k j ((i, w) ∷ m) =
      ground (arith, str_eq_iff k j, str_eq_iff i k, str_eq_iff i j, lookup-delete k j m)

  pub insert-IsMap : (k : Str) (v : V) (m : GoMap V) → IsMap m → IsMap (insert k v m)
  unfolding insert lookup
  insert-IsMap k v [] h = ground arith
  insert-IsMap k v ((j, w) ∷ m) h =
      ground (arith, str_eq_iff j k, str_eq_iff k j, lookup-insert k j v m, insert-IsMap k v m h.1)

  pub delete-IsMap : (k : Str) (m : GoMap V) → IsMap m → IsMap (delete k m)
  unfolding delete
  delete-IsMap k [] h = h
  delete-IsMap k ((j, w) ∷ m) h = ground (arith, lookup-delete k j m, delete-IsMap k m h.1)
