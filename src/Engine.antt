-- ===== src/Engine.antt =====
-- slimx_agent/engine.py: the dispatch loop.
pub mod Host
pub mod Monad
pub mod Gates
pub mod Step
pub mod Drive
pub mod Triple
pub mod Log
pub mod Sound
pub mod Safety
pub mod Progress
pub mod Stream
