-- ===== src/Doclient.antt =====
-- internal/doclient: the API client's transport. The children model one part each.
pub mod Context
pub mod Resource
pub mod Backoff
pub mod Transport
pub mod Client
