-- ===== src/Concurrency.antt =====
-- app/services/executions.py, run by several sessions at a time. Every call of `execute_quote` is a
-- sequence of phases, one for each statement at which it may have to wait for another transaction;
-- between two phases the other sessions may take any number of theirs.
pub mod Phases
pub mod Brackets
pub mod Alone
pub mod Views
pub mod Protocol
pub mod Atomic
pub mod Steps
pub mod Entering
pub mod Follows
pub mod Interleaving
pub mod Undisturbed
pub mod Others
pub mod Moves
pub mod Invariant
pub mod Kept
pub mod Safety
pub mod Serial
pub mod Progress
pub mod Termination
pub mod Solo
