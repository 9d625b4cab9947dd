-- ===== src/Client.antt =====
-- pkg/client: validation of entries, the multipart body, the two clients and how they open a session.
pub mod Validate
pub mod Multipart
pub mod Resilient
pub mod Connect
pub mod Sync
pub mod Checks
