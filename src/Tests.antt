-- ===== src/Tests.antt =====
-- Runs of the model on small concrete states.
pub mod Worlds
mod Transfers
mod Refusals
mod Refreshes
mod Routes
mod Credits
mod Amounts
mod Systems
mod Sessions
mod Starts
mod Http
mod Customers
mod Printing
