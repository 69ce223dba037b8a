-- ===== src/Config/Servers.antt =====
-- service-discovery-controller/config/config.go: `NatsServers`, and the list that main.go makes of them.
use cf_app_sd_release.Base.{List, Str, [], bytes, join_with, ◌++◌, ◌∷◌}
use cf_app_sd_release.Config.Controller.{NatsConfig}
use cf_app_sd_release.Config.Escapes.{escape, escapes_in_host, escapes_in_user}
use cf_app_sd_release.Populator.Job.{decimal}

-- `url.UserPassword(user, pass)` as text, with its `@`.
unfoldable pub user_password : Str → Str → Str
user_password user pass =
    escape escapes_in_user user ++ (b':' ∷ (escape escapes_in_user pass ++ b'@' ∷ []))

-- `uri.String()`. The host, with its colon and the port, is never empty.
unfoldable pub server_url : NatsConfig → Str
unfolding user_password
server_url info =
    bytes "nats://"
    ++ (user_password info.user info.pass
        ++ escape escapes_in_host (info.host ++ (b':' ∷ decimal info.port)))

unfoldable pub nats_servers : List NatsConfig → List Str
nats_servers [] = []
nats_servers (info ∷ infos) = server_url info ∷ nats_servers infos

-- `strings.Join(servers, ",")`
unfoldable pub join_commas : List Str → Str
unfolding join_with
join_commas servers = join_with b',' servers
