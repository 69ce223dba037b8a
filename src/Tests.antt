-- ===== src/Tests.antt =====
-- Runs at concrete inputs, and the properties applied to them.
mod Table
mod Bus
mod Server
mod Resolver
mod Load
mod Sending
mod Loading
mod Chain
mod Settings
mod Startup
mod Requests
mod Queries
mod AdapterStartup
mod Apps
