-- ===== src/Process/Bounds.antt =====
-- The durations of the table that is built from an accepted configuration.
use cf_app_sd_release.AddressTable.Table.{new_address_table}
use cf_app_sd_release.Base.{
  Bool, List, Option, Str, arith, inr, negsuc, pos, pos_part, ℕ, ℤ, ◌*◌, ◌^◌, ◌≡◌, ◌≤ℤ◌,
}
use cf_app_sd_release.Config.Checks.{Check, IsValidator, load_config_iff}
use cf_app_sd_release.Config.Controller.{Config, config_checks, new_config}
use cf_app_sd_release.Process.Durations.{duration_of_seconds, duration_of_seconds-pos, max_seconds}
use cf_app_sd_release.Process.Wiring.{build_address_table}

exact :
    (z : ℤ) (m : ℕ)
    → pos m ≤ℤ z
    → z ≤ℤ pos max_seconds
    → (duration_of_seconds z ≡ pos (pos_part z * 10 ^ 9))
      × (pos (m * 10 ^ 9) ≤ℤ duration_of_seconds z)
exact (pos n) m lo hi = let e = duration_of_seconds-pos n (omega arith) in (e, rw e (omega arith))
exact (negsuc n) m lo hi = absurd (omega arith)

-- When `NewConfig` accepts a text, with a validator that keeps to its documentation, and no number of
-- seconds exceeds 9223372036, the table is built with the configured durations in nanoseconds, exactly:
-- the staleness threshold and the pruning interval are at least one second, so positive, and the resume
-- delay is not negative.
pub build_address_table_bounds :
    (unmarshal : Str → Option Config) (valid : List Check → Bool) (text : Str) (conf : Config)
    → IsValidator valid
    → new_config unmarshal valid text ≡ inr conf
    → conf.staleness_threshold_seconds ≤ℤ pos max_seconds
    → conf.pruning_interval_seconds ≤ℤ pos max_seconds
    → conf.resume_pruning_delay_seconds ≤ℤ pos max_seconds
    → let t = build_address_table conf in
      (t.staleness_threshold ≡ pos (pos_part conf.staleness_threshold_seconds * 10 ^ 9))
      × (t.pruning_interval ≡ pos (pos_part conf.pruning_interval_seconds * 10 ^ 9))
      × (t.resume_pruning_delay ≡ pos (pos_part conf.resume_pruning_delay_seconds * 10 ^ 9))
      × (pos (10 ^ 9) ≤ℤ t.staleness_threshold)
      × (pos (10 ^ 9) ≤ℤ t.pruning_interval)
      × (pos 0 ≤ℤ t.resume_pruning_delay)
unfolding build_address_table new_address_table new_config config_checks
build_address_table_bounds unmarshal valid text conf v loaded a b c =
    let (_, passed) = (load_config_iff config_checks unmarshal valid text conf v).0 loaded in
    let counts = passed.1.1.1.1.1.1 in
    let x = exact conf.staleness_threshold_seconds 1 (counts.0) a in
    let y = exact conf.pruning_interval_seconds 1 (counts.1.0) b in
    let z = exact conf.resume_pruning_delay_seconds 0 (counts.1.1.1.0) c in
    (x.0, y.0, z.0, x.1, y.1, z.1)
