-- ===== src/Protected.antt =====
-- src/vfs/protected.rs and src/vfs/scoped/protected.rs: files that are stored masked or encrypted.
pub mod Header
pub mod Meta
pub mod Mask
pub mod Obfuscate
pub mod Encrypt
pub mod Payload
pub mod Read
mod Tests
