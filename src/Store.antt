-- ===== src/Store.antt =====
-- The persistence layer, coordinator/store: its tables, transactions, ledger and operations.
pub mod Tables
pub mod Tx
pub mod Ledger
pub mod Settle
pub mod Enroll
pub mod Deposit
pub mod Payout
pub mod Accounts
pub mod Device
pub mod Listing
pub mod Migrate
pub mod Memory
mod Tests
