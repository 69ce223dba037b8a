-- ===== src/Config/Checks.antt =====
-- The struct tags of the configurations, which gopkg.in/validator.v2 reads. The library is a parameter:
-- `valid` says whether it accepts a list of checks.
use cf_app_sd_release.Base.{
  All, Bool, List, Option, Str, [], arith, if◌then◌else◌, inl, inr, none, pos, refl, some, true, ℕ,
  ℤ, ◌↔◌, ◌≡◌, ◌≢◌, ◌≤ℤ◌, ◌⊎◌,
}

-- `validate:"nonzero"` on a string, and `validate:"min=m"` on an integer.
pub data Check : Type 0 where
  nonzero : Str → Check
  at_least : ℕ → ℤ → Check

abbrev pub Passes : Check → Type 0
Passes (nonzero s) = s ≢ []
Passes (at_least m v) = pos m ≤ℤ v

-- Documented of the library: it accepts exactly when every tag is met.
abbrev pub IsValidator : (List Check → Bool) → Type 0
IsValidator valid = (cs : List Check) → (valid cs ≡ true) ↔ All Passes cs

-- The two errors of `NewConfig`.
pub data ConfigError : Type 0 where
  not_unmarshaled invalid_config : ConfigError

-- `NewConfig`, for a type of configurations with its checks. `unmarshal` is the JSON decoder.
unfoldable pub load_config :
    {C : Type 0} → (C → List Check) → (Str → Option C) → (List Check → Bool) → Str → ConfigError ⊎ C
load_config checks unmarshal valid config_json = elim (unmarshal config_json) [
  | none ↦ inl not_unmarshaled
  | some c ↦ if valid (checks c) then inr c else inl invalid_config
]

module _ {C : Type 0} (checks : C → List Check) (unmarshal : Str → Option C)
    (valid : List Check → Bool) (config_json : Str) (c : C) where
  load_config_accepts :
      unmarshal config_json ≡ some c
      → valid (checks c) ≡ true
      → load_config checks unmarshal valid config_json ≡ inr c
  unfolding load_config
  load_config_accepts e good = rw (e, load_config) (rw good refl)

  load_config_inverse :
      load_config checks unmarshal valid config_json ≡ inr c
      → (unmarshal config_json ≡ some c) × (valid (checks c) ≡ true)
  unfolding load_config
  load_config_inverse h = ground arith

  -- A configuration is returned exactly if the text decodes to it and it meets every tag.
  pub load_config_iff :
      IsValidator valid
      → (load_config checks unmarshal valid config_json ≡ inr c)
        ↔ ((unmarshal config_json ≡ some c) × All Passes (checks c))
  load_config_iff v = (
    λ h. let (e, good) = load_config_inverse h in (e, (v (checks c)).0 good),
    λ h. load_config_accepts (h.0) ((v (checks c)).1 (h.1)),
  )
