-- ===== src/Crypto.antt =====
-- src/crypto: the crypto core, bytes in and bytes out.
pub mod Base64
pub mod SecureBytes
pub mod Primitives
pub mod EncString
pub mod Kdf
pub mod Keys
pub mod Cipher
pub mod PinWrap
pub mod PasswordGen
pub mod Totp
