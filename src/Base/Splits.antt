-- ===== src/Base/Splits.antt =====
-- `strings.Split` and `strings.Join` for a separator of one byte.
use Prim.Native.Nat.{ℕ}
use mathlib.Core.Path.{◌≡◌, refl, ap, ◌∙◌}
use mathlib.Core.Logic.{inl, inr}
use mathlib.Core.Bool.{false}
use mathlib.Core.List.{List, [], ◌∷◌, ◌++◌}
use native.Mathlib.Omega.{arith}
use cf_app_sd_release.Base.Tests.{◌==◌, if◌then◌else◌, Bool-cases}
use cf_app_sd_release.Base.Lists.{All}
use cf_app_sd_release.Base.Text.{Str}

module _ (sep : ℕ) where
  unfoldable pub split_on : Str → List Str
  split_on [] = [] ∷ []
  split_on (c ∷ s) = elim (split_on s) [
    | [] ↦ []
    | first ∷ rest ↦ if c == sep then [] ∷ first ∷ rest else (c ∷ first) ∷ rest
  ]

  unfoldable pub join_with : List Str → Str
  join_with [] = []
  join_with (s ∷ []) = s
  join_with (s ∷ t ∷ rest) = s ++ (sep ∷ join_with (t ∷ rest))

  -- The separator does not occur.
  abbrev pub IsFree : Str → Type 0
  IsFree = All (λ c. (c == sep) ≡ false)

  split_on-nonempty : (s : Str) → (first : Str) × (rest : List Str) × (split_on s ≡ first ∷ rest)
  unfolding split_on
  split_on-nonempty [] = ([], [], refl)
  split_on-nonempty (c ∷ s) =
      let (first, rest, e) = split_on-nonempty s in
      elim (Bool-cases (c == sep)) [
        | inl same ↦ ([], first ∷ rest, rw (e, split_on) (rw same refl))
        | inr other ↦ (c ∷ first, rest, rw (e, split_on) (rw other refl))
      ]

  pub split_on-free : (s : Str) → IsFree s → split_on s ≡ s ∷ []
  unfolding split_on
  split_on-free [] h = refl
  split_on-free (c ∷ s) h = ground (arith, split_on-free s h.1)

  pub split_on-append : (s t : Str) → IsFree s → split_on (s ++ sep ∷ t) ≡ s ∷ split_on t
  unfolding split_on
  split_on-append [] t h = let (first, rest, e) = split_on-nonempty t in ground (arith, e)
  split_on-append (c ∷ s) t h = ground (arith, split_on-append s t h.1)

  -- Splitting takes a joined list apart again.
  pub split_on-join_with :
      (s : Str) (l : List Str) → All IsFree (s ∷ l) → split_on (join_with (s ∷ l)) ≡ s ∷ l
  unfolding join_with
  split_on-join_with s [] h = split_on-free s (h.0)
  split_on-join_with s (t ∷ l) h =
      split_on-append s (join_with (t ∷ l)) (h.0) ∙ ap (◌∷◌ s) (split_on-join_with t l h.1)
