-- ===== src/HostClient.antt =====
-- slimx_agent/host_client.py: the client of the host's callback API. The HTTP library is a parameter.
pub mod Errors
pub mod Urls
pub mod Attempt
pub mod Profile
pub mod Io
pub mod Transport
pub mod Operations
pub mod Segments
pub mod Wire
pub mod Once
pub mod Callbacks
