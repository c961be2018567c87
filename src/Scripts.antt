-- ===== src/Scripts.antt =====
-- scripts/: what the release checks decide of what they have read.
pub mod Version
pub mod Agreed
pub mod Distribution
pub mod Texts
pub mod Contents
pub mod Shipped
pub mod Coverage
