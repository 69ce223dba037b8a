-- ===== src/Process/LocalIp.antt =====
-- service-discovery-controller/localip/local_ip.go. The calls of the package net are parameters: `none`
-- is an error, and a connection is given by the text of its local address.
use cf_app_sd_release.Base.{Option, Str, bytes, none, some}

infixl 5 ◌>>=◌
abbrev ◌>>=◌ : {A B : Type 0} → Option A → (A → Option B) → Option B
none >>= k = none
some a >>= k = k a

unfoldable pub local_ip :
    {A : Type 0} → (Str → Option A) → (A → Option Str) → (Str → Option (Str × Str)) → Option Str
local_ip resolve_udp_addr dial_udp split_host_port = do
  addr ← resolve_udp_addr (bytes "1.2.3.4:1")
  local_addr ← dial_udp addr
  pair ← split_host_port local_addr
  some pair.0
