-- ===== src/Tests/Server.antt =====
-- The controller's handlers at concrete inputs.
use cf_app_sd_release.AddressTable.Hostname.{fqdn}
use cf_app_sd_release.AddressTable.Table.{lookup_ips}
use cf_app_sd_release.Routes.Listing.{handle_routes_request-lookup_ips}
use cf_app_sd_release.Base.{All, Any, ◌⊎◌, List, Str, [], false, refl, some, ◌++◌, ◌∷◌, ◌≡◌}
use cf_app_sd_release.Routes.MetricsRecorder.{MetricsRecorder}
use cf_app_sd_release.Routes.Server.{handle_routes_request, ok_status, Address}
use cf_app_sd_release.Tests.Table.{app, one_host, one_host-IsValid}

abbrev no_requests : MetricsRecorder
no_requests = record { request_count = 0 }

abbrev joined_names : List Address → Str
joined_names [] = []
joined_names (a ∷ l) = a.hostname ++ joined_names l

handle_routes_request-lookup_ips_example :
    (l : List Address) × (handle_routes_request
        (λ l. some (joined_names l))
        []
        false
        (one_host 5)
        no_requests
      ≡ record { status = ok_status; body = joined_names l; recorder = no_requests })
    × All (λ a. lookup_ips (one_host 5) a.hostname ≡ a.ips) l
    × ((lookup_ips (one_host 5) app ≡ [])
        ⊎ Any (λ a. (a.hostname ≡ fqdn app) × (a.ips ≡ lookup_ips (one_host 5) app)) l)
handle_routes_request-lookup_ips_example =
    handle_routes_request-lookup_ips (λ l. some (joined_names l)) joined_names [] (one_host 5)
      no_requests app (λ l. refl) (one_host-IsValid 5)
