-- ===== src/Process.antt =====
-- service-discovery-controller/main.go: the controller as a process, from its configuration on.
pub mod Durations
pub mod LocalIp
pub mod Wiring
pub mod Messages
pub mod Events
pub mod Main
pub mod Bounds
pub mod Settings
pub mod Running
pub mod Ending
pub mod Needs
pub mod Starting
pub mod Runs
pub mod Announced
pub mod Steps
pub mod Warmth
pub mod Counts
pub mod Directory
pub mod Promises
pub mod Keeping
pub mod Losing
pub mod Answers
pub mod Replies
