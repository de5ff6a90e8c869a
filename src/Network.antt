-- ===== src/Network.antt =====
-- packages/network: which network a command may reach, and which signing keys its child sees.
pub mod Environment
pub mod Policy
pub mod Signing
pub mod Laws
