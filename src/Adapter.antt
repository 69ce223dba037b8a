-- ===== src/Adapter.antt =====
-- bosh-dns-adapter: answers DNS queries over HTTP from the service discovery controller.
pub mod Shuffle
pub mod Client
pub mod Retries
pub mod Answers
pub mod Requests
pub mod Answering
pub mod Dial
pub mod Main
pub mod Starting
