-- ===== src/Populator.antt =====
-- route_populator: publishes registrations for a range of routes, split among goroutines.
pub mod Partition
pub mod Job
pub mod Runner
pub mod Coverage
pub mod Publisher
pub mod Publishing
pub mod Flags
pub mod Goroutines
pub mod Stopping
pub mod Waiting
pub mod Settled
pub mod Finishing
pub mod Main
pub mod Populating
pub mod Sending
pub mod Rounds
pub mod Refining
pub mod Progress
pub mod Sent
pub mod Announcing
pub mod Messages
