-- ===== src/Fleet.antt =====
-- The fleet: what is installed on which beacon, and how it gets there.
pub mod Installs
pub mod Runtimes
pub mod Push
pub mod Transfer
pub mod Models
pub mod Filter
pub mod Manager
pub mod AutoPush
pub mod Consent
pub mod Delivery
pub mod Histories
