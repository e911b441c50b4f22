-- ===== src/Repositories.antt =====
-- app/repositories: the statements that read and write the tables.
pub mod Balances
pub mod Ledger
pub mod Rates
pub mod Keeps
