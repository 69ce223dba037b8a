-- ===== src/Routes/Server.antt =====
-- service-discovery-controller/routes/server.go: the two request handlers, over the address table. The
-- JSON encoders are parameters, `none` where they return an error, and so is the error's text.
-- `write_fails` says that writing the answer fails, which is only logged.
use mathlib.Core.List.{reverse}
use cf_app_sd_release.AddressTable.Table.{AddressTable, get_all_addresses, is_warm, lookup_ips}
use cf_app_sd_release.Base.{
  Bool, GoMap, List, Option, Str, [], bytes, if◌then◌else◌, map, none, pos, some, str_eq, ℕ, ℤ,
  ◌==◌, ◌∷◌,
}
use cf_app_sd_release.Routes.MetricsRecorder.{MetricsRecorder, record_request}

pub record Host : Type 0 where
  pub ip_address : Str
  pub last_check_in : Str
  pub port : ℤ
  pub revision : Str
  pub service : Str
  pub service_repo_name : Str
  pub tags : GoMap Str

pub record Registration : Type 0 where
  pub hosts : List Host
  pub env : Str
  pub service : Str

pub record Address : Type 0 where
  pub hostname : Str
  pub ips : List Str

abbrev pub internal_server_error : ℕ
internal_server_error = 500

abbrev pub ok_status : ℕ
ok_status = 200

-- The answer, and the recorder of requests.
pub record Response : Type 0 where
  pub status : ℕ
  pub body : Str
  pub recorder : MetricsRecorder

-- `path.Base`: trailing slashes go, then what stands before the last slash; "." for an empty path and
-- "/" for one of slashes.
unfoldable pub drop_slashes : Str → Str
drop_slashes [] = []
drop_slashes (c ∷ s) = let rest = drop_slashes s in if c == b'/' then rest else c ∷ s

unfoldable pub until_slash : Str → Str
until_slash [] = []
until_slash (c ∷ s) = if c == b'/' then [] else c ∷ until_slash s

unfoldable pub base : Str → Str
base path =
    let stripped = drop_slashes (reverse path) in
    if str_eq path []
    then bytes "."
    else if str_eq stripped []
    then bytes "/"
    else reverse (until_slash stripped)

-- `host{IPAddress: ip, Tags: ...}`, all other fields zero.
unfoldable pub host_of : Str → Host
host_of ip = record {
  ip_address = ip;
  last_check_in = [];
  port = pos 0;
  revision = [];
  service = [];
  service_repo_name = [];
  tags = [];
}

-- The part of `handleRegistrationRequest` behind the test, from the addresses on.
unfoldable pub write_registration :
    (Registration → Option Str) → Str → Bool → List Str → MetricsRecorder → Response
write_registration marshal error_text write_fails ips recorder =
    elim (marshal (record { hosts = map host_of ips; env = []; service = [] })) [
      | none ↦ record { status = internal_server_error; body = error_text; recorder = recorder }
      | some json ↦ record {
        status = ok_status;
        body = if write_fails then [] else json;
        recorder = record_request recorder;
      }
    ]

unfoldable pub handle_registration_request :
    (Registration → Option Str) → Str → Bool → AddressTable → MetricsRecorder → Str → Response
handle_registration_request marshal error_text write_fails t recorder url_path =
    let service_key = base url_path in
    if is_warm t
    then write_registration marshal error_text write_fails (lookup_ips t service_key) recorder
    else record {
      status = internal_server_error;
      body = bytes "address table is not warm\n";
      recorder = recorder;
    }

unfoldable pub addresses_of : GoMap (List Str) → List Address
addresses_of [] = []
addresses_of ((i, available_address) ∷ m) =
    record { hostname = i; ips = available_address } ∷ addresses_of m

unfoldable pub handle_routes_request :
    (List Address → Option Str) → Str → Bool → AddressTable → MetricsRecorder → Response
handle_routes_request marshal error_text write_fails t recorder =
    elim (marshal (addresses_of (get_all_addresses t))) [
      | none ↦ record { status = internal_server_error; body = error_text; recorder = recorder }
      | some json ↦ record {
        status = ok_status;
        body = if write_fails then [] else json;
        recorder = recorder;
      }
    ]
