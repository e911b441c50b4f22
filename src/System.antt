-- ===== src/System.antt =====
-- The engine as a whole: what every sequence of requests keeps true of the committed tables.
pub mod Sound
pub mod Requests
pub mod Effects
pub mod History
pub mod Runs
pub mod Retries
pub mod Http
pub mod Responses
