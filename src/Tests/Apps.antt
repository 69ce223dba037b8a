-- ===== src/Tests/Apps.antt =====
-- The example applications at concrete inputs.
use cf_app_sd_release.Base.{
  Str, [], arith, bytes, if◌then◌else◌, inr, join_with, length, map, negsuc, none, panics, refl,
  returns, some, split_on, str_eq, suc, true, zero, ℕ, ◌++◌, ◌==◌, ◌∷◌, ◌≡◌,
}
use cf_app_sd_release.ExampleApps.Digging.{dig_line, dig_loop, diglett_target, shows_stats}
use cf_app_sd_release.ExampleApps.Diglett.{
  diglett, duration_of_milliseconds, get_num_answers, get_query_time, new_ticker, tick_every,
}
use cf_app_sd_release.ExampleApps.Downloads.{download-decimal}
use cf_app_sd_release.ExampleApps.Numbers.{
  after_prefix, atoi, digits_value, magnitude, negative, signed, trim_prefix,
}
use cf_app_sd_release.ExampleApps.Ping.{handle_error, hung, ping}
use cf_app_sd_release.ExampleApps.Proxy.{answer, dig, download, first_part, upload}
use cf_app_sd_release.ExampleApps.Stats.{AppResponse}
use cf_app_sd_release.Populator.Job.{decimal}
use cf_app_sd_release.Process.Durations.{from_word, to_word}
use cf_app_sd_release.Routes.Mux.{clean_from, clean_path, clean_rooted, ends_in_slash, push_element}

abbrev zeros : ℕ → Str
zeros zero = []
zeros (suc n) = 0 ∷ zeros n

length-zeros : (n : ℕ) → length (zeros n) ≡ n
length-zeros zero = refl
length-zeros (suc n) = omega (arith, length-zeros n)

download-decimal_example :
    (a : AppResponse) × (download zeros 1000 (bytes "/download/" ++ decimal 12) ≡ returns a)
    × (a.status ≡ 200)
    × (length a.body ≡ 12)
download-decimal_example = download-decimal zeros 1000 12 length-zeros (omega arith) (omega arith)

negative_size : atoi (bytes "-42") ≡ some (negsuc 41)
unfolding atoi signed magnitude digits_value negative
negative_size = refl

no_number : atoi (bytes "4x") ≡ none
unfolding atoi signed magnitude digits_value
no_number = refl

too_large : atoi (bytes "9223372036854775808") ≡ none
unfolding atoi signed magnitude digits_value
too_large = refl

upload_size : upload (some (inr (bytes "abc"))) ≡ answer 200 (bytes "3 bytes received and read")
unfolding upload decimal
upload_size = refl

-- The port behind a name is dropped.
dig_name :
    dig (λ name. inr (name ∷ [])) (λ ip. ip) (λ l. inr (map length l ++ [])) (bytes "/dig/host:80")
    ≡ answer 200 (4 ∷ [])
unfolding dig first_part split_on trim_prefix after_prefix
dig_name = refl

ping_hangs :
    ping (λ path. str_eq path (bytes "/sbin/ping")) (λ args. hung none) (bytes "/ping/host")
    ≡ answer 500 (bytes "Ping failed to destination: host: killing ping after timed out")
unfolding ping handle_error first_part split_on trim_prefix after_prefix
ping_hangs = refl

abbrev variables : Str → Str
variables key =
    if str_eq key (bytes "PORT")
    then bytes "8080"
    else if str_eq key (bytes "DIGLETT_DESTINATION")
    then bytes "host"
    else bytes "0"

-- A frequency of 0 is a number, but no period of a ticker.
frequency_zero : diglett (λ expression. true) variables ≡ panics
unfolding diglett tick_every new_ticker duration_of_milliseconds atoi signed magnitude digits_value
    str_eq to_word from_word
frequency_zero = refl

query_time : get_query_time (λ output. output) (bytes "Query time: 3 msec") ≡ bytes "3 msec"
unfolding get_query_time
query_time = refl

-- A tick after which the command fails: one line, and a panic.
digs_once :
    dig_loop
      (λ n. if n == 0 then some (bytes "Query time: 3 msec") else none)
      (λ output. output)
      (λ output limit. output ∷ [])
      (bytes "host")
      5
      0
    ≡ (bytes "dig host 3 msec 1 answers\n" ∷ [], true)
unfolding dig_loop dig_line get_query_time get_num_answers decimal
digs_once = refl

stats_page : diglett_target (bytes "/stats") ≡ shows_stats
unfolding diglett_target clean_path clean_rooted clean_from push_element split_on join_with str_eq
    ends_in_slash
stats_page = refl
