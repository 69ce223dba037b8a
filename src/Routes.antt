-- ===== src/Routes.antt =====
-- service-discovery-controller/routes: the HTTP server of the controller, and its metrics.
pub mod MetricsRecorder
pub mod Server
pub mod Paths
pub mod Serving
pub mod Listing
pub mod Mux
pub mod Targets
pub mod Run
