-- ===== src/Tests.antt =====
-- Runs of the model on concrete inputs, and the theorems at inputs where their hypotheses hold.
pub mod Decoder
mod Routing
mod Parsing
mod Connections
mod Sessions
mod Files
mod Revalidation
mod Queries
mod Encodings
mod Heads
mod Limiter
mod CookieJar
