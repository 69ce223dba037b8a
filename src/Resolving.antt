-- ===== src/Resolving.antt =====
-- From the message bus to a DNS query: the running controller
-- (src/service-discovery-controller/main.go) and, asking it, the handler of the adapter
-- (src/bosh-dns-adapter/main.go) with its client. HTTP is a parameter, as in EndToEnd.
pub mod Asking
pub mod Resolved
