-- ===== src/AddressTable.antt =====
-- service-discovery-controller/addresstable/address_table.go: the table from host names to the
-- addresses that are registered for them.
pub mod Hostname
pub mod Entries
pub mod Addresses
pub mod Table
pub mod Prune
pub mod Lookups
pub mod Calls
pub mod Validity
pub mod History
pub mod Staleness
pub mod Pruned
pub mod Ticks
pub mod Interleaving
pub mod Traces
pub mod Sections
pub mod Losses
pub mod Pausing
