-- ===== src/AppMgmt.antt =====
-- The servers of the application management test, app-mgmt-test.
pub mod Ledger
pub mod PortStart
pub mod PortWaiter
pub mod Client
pub mod BootStart
pub mod Small
mod Tests
