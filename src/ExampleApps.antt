-- ===== src/ExampleApps.antt =====
-- example-apps: the web applications that the acceptance tests deploy.
pub mod Numbers
pub mod Stats
pub mod Proxy
pub mod Downloads
pub mod Ping
pub mod Server
pub mod Diglett
pub mod Digging
