-- ===== src/HttpStore.antt =====
-- slimx_agent/http_store.py: the `RunStore` of the standalone service, over the host's callback API.
pub mod Fields
pub mod Snapshots
pub mod Store
pub mod Strict
