-- ===== src/Tests/Chain.antt =====
-- The three programs together at a concrete input.
use mathlib.Core.List.{append-nil, append_assoc}
use cf_app_sd_release.Adapter.Client.{Host}
use cf_app_sd_release.Base.{
  List, Option, Str, [], ap, map, refl, some, suc, sym, zero, ◌++◌, ◌∙◌, ◌∷◌, ◌≡◌,
}
use cf_app_sd_release.EndToEnd.{hosts_of}
use cf_app_sd_release.Routes.Server.{Host as AnsweringHost, Registration, host_of}
use cf_app_sd_release.Routes.Serving.{registration_of}

-- An encoding of address lists that can be read back: each byte plus one, and a zero behind each address.
abbrev raised : Str → Str → Str
raised [] rest = 0 ∷ rest
raised (c ∷ s) rest = suc c ∷ raised s rest

abbrev encode_hosts : List AnsweringHost → Str
encode_hosts [] = []
encode_hosts (h ∷ hs) = raised h.ip_address (encode_hosts hs)

abbrev read_hosts : Str → Str → List Host
read_hosts acc [] = []
read_hosts acc (zero ∷ s) = record { ip_address = acc } ∷ read_hosts [] s
read_hosts acc (suc c ∷ s) = read_hosts (acc ++ c ∷ []) s

abbrev pub encoder : Registration → Str
encoder r = encode_hosts r.hosts

abbrev pub marshal_all : Registration → Option Str
marshal_all r = some (encoder r)

abbrev pub reader : Str → Option (Option (List Host))
reader s = some (some (read_hosts [] s))

read_raised :
    (acc s rest : Str)
    → read_hosts acc (raised s rest) ≡ record { ip_address = acc ++ s } ∷ read_hosts [] rest
read_raised acc [] rest =
    ap (λ l. record { ip_address = l } ∷ read_hosts [] rest) (sym (append-nil acc))
read_raised acc (c ∷ s) rest =
    read_raised (acc ++ c ∷ []) s rest
    ∙ ap (λ l. record { ip_address = l } ∷ read_hosts [] rest) (append_assoc acc (c ∷ []) s)

pub read_back : (l : List Str) → read_hosts [] (encode_hosts (map host_of l)) ≡ hosts_of l
unfolding host_of
read_back [] = refl
read_back (a ∷ l) =
    read_raised [] a (encode_hosts (map host_of l))
    ∙ ap (◌∷◌ (record { ip_address = a })) (read_back l)

pub round_trip : (l : List Str) → reader (encoder (registration_of l)) ≡ some (some (hosts_of l))
round_trip l = ap (λ hs. some (some hs)) (read_back l)
