-- ===== src/Config.antt =====
-- service-discovery-controller/config and bosh-dns-adapter/config: the configuration files.
pub mod Checks
pub mod Controller
pub mod Adapter
pub mod Escapes
pub mod Servers
pub mod Reading
pub mod Joining
