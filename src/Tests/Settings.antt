-- ===== src/Tests/Settings.antt =====
-- The configuration of the controller at concrete inputs.
use cf_app_sd_release.Base.{
  Bool, IsFree, List, Option, Str, [], arith, bytes, inr, join_with, leb_ℤ, ltb, map, not, pos,
  pos_part, refl, some, split_on, str_eq, str_eq_iff, true, ℕ, ◌&&◌, ◌*◌, ◌+◌, ◌==◌, ◌^◌, ◌↔◌, ◌∷◌,
  ◌≡◌, ◌≤ℤ◌,
}
use cf_app_sd_release.Config.Checks.{Check, IsValidator, Passes, at_least, load_config, nonzero}
use cf_app_sd_release.Config.Controller.{Config, NatsConfig, config_checks, new_config}
use cf_app_sd_release.Config.Escapes.{escape, escapes_in_host, escapes_in_user}
use cf_app_sd_release.Config.Joining.{IsPlain, read_server-split_on}
use cf_app_sd_release.Config.Reading.{AreBytes, IsReadable, read_server}
use cf_app_sd_release.Config.Servers.{join_commas, nats_servers, server_url, user_password}
use cf_app_sd_release.Populator.Job.{decimal}
use cf_app_sd_release.Process.Bounds.{build_address_table_bounds}
use cf_app_sd_release.Process.Durations.{duration_of_seconds, max_seconds}
use cf_app_sd_release.Process.Wiring.{build_address_table}

-- A validator that keeps to its documentation.
abbrev passes : Check → Bool
passes (nonzero s) = not (str_eq s [])
passes (at_least m v) = leb_ℤ (pos m) v

abbrev pub validates : List Check → Bool
validates [] = true
validates (c ∷ cs) = passes c && validates cs

passes_iff : (c : Check) → (passes c ≡ true) ↔ Passes c
passes_iff (nonzero s) =
    let same = str_eq_iff s [] in (λ h. ground (arith, same), λ h. ground (arith, same))
passes_iff (at_least m v) = (λ h. ground arith, λ h. ground arith)

validates-IsValidator : IsValidator validates
validates-IsValidator [] = (λ h. tt, λ h. refl)
validates-IsValidator (c ∷ cs) =
    let one = passes_iff c in
    let others = validates-IsValidator cs in
    (
      λ h. (one.0 (ground arith), others.0 (ground arith)),
      λ h. ground (arith, one.1 (h.0), others.1 (h.1)),
    )

abbrev first_server : NatsConfig
first_server = record {
  host = bytes "10.0.0.1";
  port = 4222;
  user = bytes "nats";
  pass = bytes "s3@t";
}

abbrev second_server : NatsConfig
second_server = record first_server { host = bytes "10.0.0.2" }

abbrev pub settings_file : Config
settings_file = record {
  address = bytes "0.0.0.0";
  port = bytes "8054";
  nats = first_server ∷ second_server ∷ [];
  index = bytes "62";
  server_cert = bytes "cert";
  server_key = bytes "key";
  ca_cert = bytes "ca";
  metron_port = pos 3457;
  log_level_address = bytes "127.0.0.1";
  log_level_port = pos 8055;
  staleness_threshold_seconds = pos 600;
  pruning_interval_seconds = pos 60;
  metrics_emit_seconds = pos 10;
  resume_pruning_delay_seconds = pos 0;
  warm_duration_seconds = pos 1;
}

abbrev pub decode_settings : Str → Option Config
decode_settings text = some settings_file

accepted : new_config decode_settings validates (bytes "json") ≡ inr settings_file
unfolding new_config load_config config_checks str_eq
accepted = refl

build_address_table_bounds_example :
    let t = build_address_table settings_file in
    (t.staleness_threshold ≡ pos (pos_part settings_file.staleness_threshold_seconds * 10 ^ 9))
    × (t.pruning_interval ≡ pos (pos_part settings_file.pruning_interval_seconds * 10 ^ 9))
    × (t.resume_pruning_delay ≡ pos (pos_part settings_file.resume_pruning_delay_seconds * 10 ^ 9))
    × (pos (10 ^ 9) ≤ℤ t.staleness_threshold)
    × (pos (10 ^ 9) ≤ℤ t.pruning_interval)
    × (pos 0 ≤ℤ t.resume_pruning_delay)
build_address_table_bounds_example =
    build_address_table_bounds decode_settings validates (bytes "json") settings_file
      validates-IsValidator accepted (omega arith) (omega arith) (omega arith)

-- One second more than the bound wraps around.
beyond_the_bound : duration_of_seconds (pos (max_seconds + 1)) ≤ℤ pos 0
unfolding duration_of_seconds
beyond_the_bound = omega arith

abbrev every : (ℕ → Bool) → Str → Bool
every f [] = true
every f (c ∷ s) = f c && every f s

every-IsFree : (sep : ℕ) (s : Str) → every (λ c. not (c == sep)) s ≡ true → IsFree sep s
every-IsFree sep [] h = tt
every-IsFree sep (c ∷ s) h = (ground arith, every-IsFree sep s (ground arith))

every-AreBytes : (s : Str) → every (λ c. ltb c 256) s ≡ true → AreBytes s
every-AreBytes [] h = tt
every-AreBytes (c ∷ s) h = (ground arith, every-AreBytes s (ground arith))

-- With a password that is escaped.
abbrev odd_server : NatsConfig
odd_server = record second_server { pass = bytes "p@ss:/%41" }

first_server-IsPlain : IsPlain first_server
first_server-IsPlain = record {
  host = every-IsFree b',' first_server.host refl;
  user = every-IsFree b',' first_server.user refl;
  pass = every-IsFree b',' first_server.pass refl;
}

odd_server-IsPlain : IsPlain odd_server
odd_server-IsPlain = record {
  host = every-IsFree b',' odd_server.host refl;
  user = every-IsFree b',' odd_server.user refl;
  pass = every-IsFree b',' odd_server.pass refl;
}

first_server-IsReadable : IsReadable first_server
first_server-IsReadable = record {
  host = every-AreBytes first_server.host refl;
  user = every-AreBytes first_server.user refl;
  pass = every-AreBytes first_server.pass refl;
  one_colon = every-IsFree b':' first_server.host refl;
}

odd_server-IsReadable : IsReadable odd_server
odd_server-IsReadable = record {
  host = every-AreBytes odd_server.host refl;
  user = every-AreBytes odd_server.user refl;
  pass = every-AreBytes odd_server.pass refl;
  one_colon = every-IsFree b':' odd_server.host refl;
}

read_server-split_on_example :
    map read_server (split_on b',' (join_commas (nats_servers (first_server ∷ odd_server ∷ []))))
    ≡ map some (first_server ∷ odd_server ∷ [])
read_server-split_on_example =
    read_server-split_on first_server (odd_server ∷ [])
      (first_server-IsPlain, (odd_server-IsPlain, tt))
      (first_server-IsReadable, (odd_server-IsReadable, tt))

-- A comma in a password is not escaped, and the client sees two URLs.
comma_in_password :
    split_on b',' (join_commas (nats_servers (record first_server { pass = bytes "a,b" } ∷ [])))
    ≡ bytes "nats://nats:a" ∷ bytes "b@10.0.0.1:4222" ∷ []
unfolding nats_servers server_url user_password escape join_commas join_with split_on
    escapes_in_user escapes_in_host decimal
comma_in_password = refl
