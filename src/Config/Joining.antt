-- ===== src/Config/Joining.antt =====
-- What the NATS client gets: a text that it splits at its commas.
use cf_app_sd_release.Base.{
  All, All-append, Bool, IsFree, List, Str, [], ap, arith, bytes, false, map, refl, some, split_on,
  split_on-join_with, suc, zero, ℕ, ◌%◌, ◌++◌, ◌+◌, ◌/◌, ◌==◌, ◌∙◌, ◌∷◌, ◌≡◌,
}
use cf_app_sd_release.Config.Controller.{NatsConfig}
use cf_app_sd_release.Config.Escapes.{escape, escapes_in_user, hex_digit}
use cf_app_sd_release.Config.Reading.{IsReadable, read_server, read_server-server_url}
use cf_app_sd_release.Config.Servers.{join_commas, nats_servers, server_url, user_password}
use cf_app_sd_release.Populator.Job.{decimal, digits_from}

abbrev pub NoComma : Str → Type 0
NoComma = IsFree b','

-- The parts of a server's URL have no comma of their own making.
digits_from-NoComma : (fuel n : ℕ) (acc : Str) → NoComma acc → NoComma (digits_from fuel n acc)
unfolding digits_from
digits_from-NoComma zero n acc h = h
digits_from-NoComma (suc fuel) n acc h =
    ground (arith, digits_from-NoComma fuel (n / 10) ((n % 10 + b'0') ∷ acc))

decimal-NoComma : (n : ℕ) → NoComma (decimal n)
unfolding decimal
decimal-NoComma n = digits_from-NoComma (suc n) n [] tt

hex_digit-NoComma : (d : ℕ) → (hex_digit d == b',') ≡ false
unfolding hex_digit
hex_digit-NoComma d = ground arith

escape-NoComma : (escapes : ℕ → Bool) (s : Str) → NoComma s → NoComma (escape escapes s)
unfolding escape
escape-NoComma escapes [] h = tt
escape-NoComma escapes (c ∷ s) h =
    ground
      (arith, escape-NoComma escapes s h.1, hex_digit-NoComma (c / 16), hex_digit-NoComma (c % 16))

-- A server whose host, user and password have no comma.
pub record IsPlain (info : NatsConfig) : Type 0 where
  pub host : NoComma info.host
  pub user : NoComma info.user
  pub pass : NoComma info.pass

joined : (s t : Str) → NoComma s → NoComma t → NoComma (s ++ t)
joined s t h k = All-append _ s t h k

server_url-NoComma : (info : NatsConfig) → IsPlain info → NoComma (server_url info)
unfolding server_url user_password
server_url-NoComma info h =
    joined (bytes "nats://") _ (refl, (refl, (refl, (refl, (refl, (refl, (refl, tt)))))))
      (joined (user_password info.user info.pass) _
        (joined (escape escapes_in_user info.user) _ (escape-NoComma _ _ h.user) (
          refl,
          joined (escape escapes_in_user info.pass) _ (escape-NoComma _ _ h.pass) (refl, tt),
        ))
        (escape-NoComma _ _ (joined info.host _ h.host (refl, decimal-NoComma info.port))))

nats_servers-NoComma :
    (infos : List NatsConfig) → All IsPlain infos → All NoComma (nats_servers infos)
unfolding nats_servers
nats_servers-NoComma [] h = tt
nats_servers-NoComma (info ∷ infos) h =
    (server_url-NoComma info h.0, nats_servers-NoComma infos h.1)

-- The text is split into the servers' URLs.
split_on-nats_servers :
    (info : NatsConfig) (infos : List NatsConfig)
    → All IsPlain (info ∷ infos)
    → split_on b',' (join_commas (nats_servers (info ∷ infos))) ≡ nats_servers (info ∷ infos)
unfolding nats_servers join_commas
split_on-nats_servers info infos h =
    split_on-join_with b',' (server_url info) (nats_servers infos)
      (nats_servers-NoComma (info ∷ infos) h)

map-nats_servers :
    (infos : List NatsConfig)
    → All IsReadable infos
    → map read_server (nats_servers infos) ≡ map some infos
unfolding nats_servers
map-nats_servers [] h = refl
map-nats_servers (info ∷ infos) h =
    rw (read_server-server_url info h.0, map-nats_servers infos h.1) refl

-- If there is a server, all hosts, users and passwords are bytes without a comma, and no host has a
-- colon, then whoever splits the text that the NATS client is given at its commas, and reads each part as
-- a URL, gets the configured servers back, in order: host, port, user and password.
pub read_server-split_on :
    (info : NatsConfig) (infos : List NatsConfig)
    → All IsPlain (info ∷ infos)
    → All IsReadable (info ∷ infos)
    → map read_server (split_on b',' (join_commas (nats_servers (info ∷ infos))))
      ≡ map some (info ∷ infos)
read_server-split_on info infos h k =
    ap (map read_server) (split_on-nats_servers info infos h) ∙ map-nats_servers (info ∷ infos) k
