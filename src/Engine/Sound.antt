-- ===== src/Engine/Sound.antt =====
-- slimx_agent/engine.py: the log of a drive is sound.
pub mod Calls
pub mod Dispatch
pub mod Visit
mod Passes
pub mod Drive
