-- ===== src/Engine/Progress.antt =====
-- slimx_agent/engine.py: a drive over a lawful store comes to an end.
pub mod Updates
mod Open
pub mod Rules
pub mod Lawful
mod Assertions
mod Dispatch
mod Visit
pub mod Finish
