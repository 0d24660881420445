-- ===== src/Transactions.antt =====
-- src/transactions: the coordination of operations over one Redis primary.
pub mod Record
pub mod Script
pub mod Replies
pub mod Gate
pub mod Dispatch
pub mod Admission
pub mod Keys
pub mod Lease
mod Tests
