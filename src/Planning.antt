-- ===== src/Planning.antt =====
-- slimx_agent/planning.py: the repair of a model's plan, its validation, and the step types that the
-- planner's prompt offers.
pub mod Repair
mod Blank
mod Titles
pub mod Steps
pub mod Salvaged
pub mod Repaired
pub mod Validate
pub mod Advertised
pub mod Prompt
