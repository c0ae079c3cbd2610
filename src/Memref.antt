-- ===== src/Memref.antt =====
-- The memory reference test: the lender of its pages, and the client of the lender.
pub mod Words
pub mod Lender
pub mod Client
pub mod Link
pub mod Receiver
mod Tests
