-- ===== src/ExampleApps/Server.antt =====
-- example-apps/proxy/main.go: `main` and the handlers that `launchHandler` registers.
use cf_app_sd_release.Base.{
  Bool, Option, Str, [], bytes, if◌then◌else◌, none, some, str_eq, ℤ, ◌++◌, ◌||◌, pos, negsuc, suc,
}
use cf_app_sd_release.ExampleApps.Numbers.{atoi}
use cf_app_sd_release.ExampleApps.Stats.{Stats}
use cf_app_sd_release.Populator.Job.{decimal}
use cf_app_sd_release.Routes.Mux.{clean_path, has_prefix}

pub data ProxyTarget : Type 0 where
  to_download to_dig to_ping to_proxy to_stats to_upload to_info redirected : ProxyTarget

-- The patterns for a clean path: no two of those that end in a slash have a path in common but `/`,
-- which takes what is left.
unfoldable pub match_handler : Str → ProxyTarget
match_handler path =
    if has_prefix (bytes "/download/") path
    then to_download
    else if has_prefix (bytes "/dig/") path
    then to_dig
    else if has_prefix (bytes "/ping/") path
    then to_ping
    else if has_prefix (bytes "/proxy/") path
    then to_proxy
    else if str_eq path (bytes "/stats")
    then to_stats
    else if str_eq path (bytes "/upload")
    then to_upload
    else to_info

-- A path that lacks only the slash of a pattern.
unfoldable pub lacks_slash : Str → Bool
lacks_slash path =
    str_eq path (bytes "/download")
    || (str_eq path (bytes "/dig") || (str_eq path (bytes "/ping") || str_eq path (bytes "/proxy")))

unfoldable pub proxy_target : Str → ProxyTarget
unfolding match_handler lacks_slash
proxy_target path =
    let cleaned = clean_path path in
    if lacks_slash cleaned
    then redirected
    else if str_eq cleaned path
    then match_handler path
    else redirected

-- `fmt.Sprintf("0.0.0.0:%d", port)`
unfoldable pub proxy_address : ℤ → Str
proxy_address (pos n) = bytes "0.0.0.0:" ++ decimal n
proxy_address (negsuc n) = bytes "0.0.0.0:-" ++ decimal (suc n)

-- What the server starts with, if PORT is a number; else `main` ends by `log.Fatal`.
pub record ProxyStart (F : Type 0) : Type 0 where
  pub address : Str
  pub port : ℤ
  pub stats : Stats F

unfoldable pub proxy_main : {F : Type 0} → (Str → Str) → Option (ProxyStart F)
unfolding proxy_address
proxy_main getenv = elim (atoi (getenv (bytes "PORT"))) [
  | none ↦ none
  | some port ↦
      some (record { address = proxy_address port; port = port; stats = record { latency = [] } })
]
