-- ===== src/Store.antt =====
-- internal/store: the tables, the statements and the methods on them.
pub mod Table
pub mod Rows
pub mod Sql
pub mod Quota
pub mod Recharge
pub mod Keys
pub mod Billing
pub mod Compensation
pub mod Kept
pub mod Users
pub mod Preserved
