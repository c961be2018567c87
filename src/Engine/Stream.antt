-- ===== src/Engine/Stream.antt =====
-- slimx_agent/engine.py: the events that a drive yields.
mod Keeps
mod Steps
mod Drives
pub mod Order
