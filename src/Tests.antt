-- ===== src/Tests.antt =====
-- Runs of the model, and the properties applied at concrete inputs.
pub mod World
pub mod Rows
pub mod Databases
pub mod Documents
mod LexerTests
mod SourcesTests
mod CacheTests
mod GenerationTests
mod ResolverTests
mod RealtimeTests
mod LoaderTests
mod TransportTests
mod ValidationTests
mod DatabaseTests
mod HttpTests
mod AdminTests
