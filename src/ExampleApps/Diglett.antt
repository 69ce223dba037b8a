-- ===== src/ExampleApps/Diglett.antt =====
-- example-apps/diglett/main.go: what it reads off the output of dig, and its start. The regular
-- expressions and the environment are parameters.
use cf_app_sd_release.Base.{
  Bool, ◌++◌, List, Outcome, Str, [], bytes, drop, if◌then◌else◌, length, ltb, negsuc, none, panics,
  pos, returns, some, str_eq, suc, zero, ℕ, ℤ, ◌*◌, ◌+◌, ◌-◌, ◌^◌, ◌>>=◌,
}
use cf_app_sd_release.ExampleApps.Numbers.{atoi}
use cf_app_sd_release.Process.Durations.{from_word, to_word}

-- `len("Query time: ")`
abbrev pub query_time_prefix_length : ℕ
query_time_prefix_length = 12

-- `find` is the expression's `Find`, empty where nothing matches.
unfoldable pub get_query_time : (Str → Str) → Str → Str
get_query_time find dig_output =
    let query_time_line = find dig_output in
    if ltb (length query_time_line) query_time_prefix_length
    then bytes "INVALID TIME"
    else drop query_time_prefix_length query_time_line

-- `find_all` is the expression's `FindAll`, with its limit.
unfoldable pub get_num_answers : (Str → ℕ → List Str) → Str → ℕ
get_num_answers find_all dig_output = length (find_all dig_output 500)

-- The messages of `log.Fatal`, by the variable.
pub data BadVariable : Type 0 where
  bad_port bad_destination bad_frequency : BadVariable

-- With the port, the destination and the period of the ticker.
pub data DiglettStart : Type 0 where
  gives_up : BadVariable → DiglettStart
  digs : ℤ → Str → ℕ → DiglettStart

-- `time.Duration(frequency) * time.Millisecond`, which wraps around.
unfoldable pub duration_of_milliseconds : ℤ → ℤ
duration_of_milliseconds (pos n) = from_word (to_word (pos (n * 10 ^ 6)))
duration_of_milliseconds (negsuc n) = from_word (to_word (negsuc (n * 10 ^ 6 + 10 ^ 6 - 1)))

-- `time.NewTicker` panics for a period that is not positive.
unfoldable pub new_ticker : ℤ → Outcome ℕ
new_ticker (negsuc n) = panics
new_ticker (pos zero) = panics
new_ticker (pos (suc n)) = returns (suc n)

unfoldable pub tick_every : ℤ → Str → ℤ → Outcome DiglettStart
unfolding new_ticker
tick_every port destination frequency =
    new_ticker (duration_of_milliseconds frequency) >>= λ period.
    returns (digs port destination period)

-- By the variables PORT, DIGLETT_DESTINATION and DIGLETT_FREQUENCY_MS. `compiles` says whether the
-- destination, with what is put behind it, is a regular expression.
unfoldable pub diglett : (Str → Bool) → (Str → Str) → Outcome DiglettStart
unfolding tick_every
diglett compiles getenv =
    let destination = getenv (bytes "DIGLETT_DESTINATION") in
    let ticking : ℤ → Outcome DiglettStart = λ port.
      elim (atoi (getenv (bytes "DIGLETT_FREQUENCY_MS"))) [
        | none ↦ returns (gives_up bad_frequency)
        | some frequency ↦ tick_every port destination frequency
      ] in
    let compiled : ℤ → Outcome DiglettStart =
      λ port. if compiles (destination ++ bytes ".*IN.*A") then ticking port else panics in
    elim (atoi (getenv (bytes "PORT"))) [
      | none ↦ returns (gives_up bad_port)
      | some port ↦
          if str_eq destination [] then returns (gives_up bad_destination) else compiled port
    ]
