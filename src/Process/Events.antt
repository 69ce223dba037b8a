-- ===== src/Process/Events.antt =====
-- What happens to the controller while it runs: what its subscriber handles, the sections of its pruning
-- goroutine, the requests to its HTTP server, and the readings of its metrics.
use cf_app_sd_release.AddressTable.Interleaving.{Pruner, waiting}
use cf_app_sd_release.AddressTable.Sections.{section_at}
use cf_app_sd_release.AddressTable.Table.{AddressTable}
use cf_app_sd_release.Base.{Bool, Clock, List, Option, Str, [], ℕ, ℤ, ◌++◌, ◌∷◌}
use cf_app_sd_release.Mbus.MetricsRecorder.{get_max_since_last_interval}
use cf_app_sd_release.Mbus.Subscriber.{Nats, RegistryMessage, Subscriber}
use cf_app_sd_release.Process.Messages.{MessageEvent, receive}
use cf_app_sd_release.Routes.MetricsRecorder.{MetricsRecorder, getter}
use cf_app_sd_release.Routes.Mux.{serve_mux}
use cf_app_sd_release.Routes.Server.{
  Address, Registration, Response, handle_registration_request, handle_routes_request,
}

pub data ProcessEvent : Type 0 where
  message : MessageEvent → ProcessEvent
  pruning_section : ProcessEvent
  got_request : Str → Bool → ProcessEvent  -- a path, and whether writing the answer fails
  metrics_emitted : ProcessEvent

-- What the HTTP server makes texts with: `none` where the encoder returns an error.
pub record Answering : Type 0 where
  pub marshal_registration : Registration → Option Str
  pub marshal_addresses : List Address → Option Str
  pub error_text : Str
  pub moved : Str → Str

-- A request that has been answered.
pub record Served : Type 0 where
  pub path : Str
  pub status : ℕ
  pub body : Str

-- The running controller, with the answers and the metrics that have left it, the first one first: the
-- numbers of requests, and the greatest transit times.
pub record Service : Type 0 where
  pub subscriber : Subscriber AddressTable
  pub pruner : Pruner
  pub requests : MetricsRecorder
  pub answers : List Served
  pub emitted : List (ℕ × ℤ)

unfoldable pub new_service : Subscriber AddressTable → Service
new_service s = record {
  subscriber = s;
  pruner = waiting;
  requests = record { request_count = 0 };
  answers = [];
  emitted = [];
}

-- The server's handler.
unfoldable pub serve_request : Answering → AddressTable → MetricsRecorder → Str → Bool → Response
serve_request a t recorder path write_fails =
    serve_mux
      (handle_registration_request a.marshal_registration a.error_text write_fails t recorder)
      (handle_routes_request a.marshal_addresses a.error_text write_fails t recorder) a.moved
      recorder path

unfoldable pub on_request : Answering → Str → Bool → Service → Service
unfolding serve_request
on_request a path write_fails s =
    let r = serve_request a s.subscriber.table s.requests path write_fails in
    record s {
      requests = r.recorder;
      answers = s.answers ++ record { path = path; status = r.status; body = r.body } ∷ [];
    }

-- One round of the metrics emitter, which reads its sources.
unfoldable pub emit : Service → Service
emit s =
    let dns_requests = getter s.requests in
    let greatest_time = get_max_since_last_interval s.subscriber.recorder in
    record s {
      subscriber = record s.subscriber { recorder = greatest_time.0 };
      requests = dns_requests.0;
      emitted = s.emitted ++ (dns_requests.1, greatest_time.1) ∷ [];
    }

unfoldable pub prune_next : Clock → Service → Service
prune_next clock s =
    let u = section_at clock s.subscriber.table s.pruner in
    record s { subscriber = record s.subscriber { table = u.table }; pruner = u.pruner }

module _ (clock : Clock) (decoder : Str → Option RegistryMessage) (conn : Nats) (options_json : Str)
    (a : Answering) where
  unfoldable pub handle : ProcessEvent → Service → Service
  unfolding receive on_request emit prune_next
  handle (message m) s = record s {
    subscriber = receive clock decoder conn options_json m s.subscriber;
  }
  handle pruning_section s = prune_next clock s
  handle (got_request path write_fails) s = on_request a path write_fails s
  handle metrics_emitted s = emit s

  unfoldable pub handle_all : List ProcessEvent → Service → Service
  handle_all [] s = s
  handle_all (e ∷ es) s = handle_all es (handle e s)
