-- ===== src/Mbus.antt =====
-- service-discovery-controller/mbus: the subscriber to the message bus, and its metrics.
pub mod MetricsRecorder
pub mod Table
pub mod Implementation
pub mod Accepting
pub mod Subscriber
pub mod Handlers
pub mod Running
pub mod Start
pub mod Run
