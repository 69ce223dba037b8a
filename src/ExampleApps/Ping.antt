-- ===== src/ExampleApps/Ping.antt =====
-- example-apps/proxy/handlers/ping_handler.go. The files and the command are parameters.
use cf_app_sd_release.Base.{
  Bool, List, Option, Str, [], bytes, if◌then◌else◌, none, some, ◌++◌, ◌∷◌,
}
use cf_app_sd_release.ExampleApps.Numbers.{trim_prefix}
use cf_app_sd_release.ExampleApps.Proxy.{answer, first_part}
use cf_app_sd_release.ExampleApps.Stats.{AppResponse}

-- The first address of version 4, if there is one.
unfoldable pub ipv4_address : {Ip : Type 0} → (Ip → Bool) → List Ip → Option Ip
ipv4_address is_4 [] = none
ipv4_address is_4 (ip ∷ ips) = let rest = ipv4_address is_4 ips in if is_4 ip then some ip else rest

-- How a started command goes: it does not start; it hangs for 10 seconds, with the error of killing it;
-- or it ends.
pub data PingEnd : Type 0 where
  not_started : Str → PingEnd
  hung : Option Str → PingEnd
  ended : Option Str → PingEnd

unfoldable pub handle_error : Str → Str → AppResponse
handle_error err destination =
    answer 500 (bytes "Ping failed to destination: " ++ (destination ++ (bytes ": " ++ err)))

unfoldable pub ping_path : (Str → Bool) → Str
ping_path exists = if exists (bytes "/bin/ping") then bytes "/bin/ping" else bytes "/sbin/ping"

-- `command` is given the arguments.
unfoldable pub ping : (Str → Bool) → (List Str → PingEnd) → Str → AppResponse
unfolding handle_error ping_path
ping exists command path =
    let destination = first_part b':' (trim_prefix path (bytes "/ping/")) in
    elim (command (ping_path exists ∷ bytes "-c" ∷ bytes "1" ∷ destination ∷ [])) [
      | not_started err ↦ handle_error err destination
      | hung (some err) ↦ handle_error (bytes "error killing hung ping: " ++ err) destination
      | hung none ↦ handle_error (bytes "killing ping after timed out") destination
      | ended (some err) ↦ handle_error err destination
      | ended none ↦ answer 200 (bytes "Ping succeeded to destination: " ++ destination)
    ]
