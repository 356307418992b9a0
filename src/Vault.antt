-- ===== src/Vault.antt =====
-- src/vault: what a sync holds, the vault and its lock.
pub mod Json
pub mod Int
pub mod Qt
pub mod Items
pub mod SyncParser
pub mod Maps
pub mod State
pub mod OtpUri
pub mod Access
pub mod Display
pub mod ListModel
pub mod Write
pub mod Stores
pub mod Session
