-- ===== src/Service.antt =====
-- slimx_agent/service.py: the standalone service, over the remote host.
pub mod Auth
pub mod Tokens
pub mod Edge
pub mod Validation
pub mod Client
pub mod Execute
pub mod Refusals
pub mod Stream
pub mod Streamed
pub mod App
pub mod Requests
pub mod Leases
pub mod RunCheck
pub mod Workspace
pub mod Confined
pub mod Bounded
pub mod Bridge
pub mod Observed
pub mod Ordered
