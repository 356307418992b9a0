-- ===== src/Crypto/Primitives.antt =====
-- What the crypto core takes from libcrypto and libargon2, which are no code of the repository: a
-- parameter of every definition that calls them. `none` and `false` are the failures that the calls
-- report.
use harbour_leyni.Prelude.{ℕ, ◌%◌, ◌≤◌, ◌≡◌, Bool, true, Option, some, Bytes, IsBytes, length, ◌⊎◌}

-- `EVP_sha1`, `EVP_sha256`, `EVP_sha512`
pub data Digest : Type 0 where
  sha1 sha256 sha512 : Digest

-- How the sequence of RSA calls ends.
pub data RsaOutcome : Type 0 where
  invalid_key setup_failed size_failed decrypt_failed : RsaOutcome
  plain : Bytes → RsaOutcome

pub record Primitives : Type 0 where
  -- `PKCS5_PBKDF2_HMAC` with SHA-256: password, salt, iterations, output length
  pub pbkdf2 : Bytes → Bytes → ℕ → ℕ → Option Bytes
  -- `argon2id_hash_raw`: iterations, KiB, lanes, password, salt, output length; or an error code
  pub argon2id_hash_raw : ℕ → ℕ → ℕ → Bytes → Bytes → ℕ → ℕ ⊎ Bytes
  -- `EVP_Digest` with SHA-256
  pub digest_sha256 : Bytes → Option Bytes
  -- the calls that make one HKDF expansion: key, info, output length
  pub hkdf_expand : Bytes → Bytes → ℕ → Option Bytes
  -- `HMAC`: digest, key, data
  pub hmac : Digest → Bytes → Bytes → Option Bytes
  -- `EVP_CIPHER_CTX_new` with `EVP_DecryptInit_ex` or `EVP_EncryptInit_ex`: key, iv
  pub decrypt_init : Bytes → Bytes → Bool
  pub encrypt_init : Bytes → Bytes → Bool
  -- the update and final calls of AES-256-CBC with padding: key, iv, input
  pub aes_decrypt : Bytes → Bytes → Bytes → Option Bytes
  pub aes_encrypt : Bytes → Bytes → Bytes → Option Bytes
  -- the key is a DER text
  pub rsa_oaep_decrypt : Bytes → Bytes → RsaOutcome

-- HMAC-SHA256 gives 32 bytes.
pub record HmacLaws (p : Primitives) : Type 0 where
  pub mac : Bytes → Bytes → Bytes
  pub total : (key input : Bytes) → p.hmac Digest.sha256 key input ≡ some (mac key input)
  pub length_mac : (key input : Bytes) → length (mac key input) ≡ 32
  pub mac-IsBytes : (key input : Bytes) → IsBytes (mac key input)

-- AES-256-CBC with a 32-byte key and a 16-byte iv encrypts to one or more whole blocks, and
-- decrypts what it encrypted.
pub record AesLaws (p : Primitives) : Type 0 where
  pub ciphertext : Bytes → Bytes → Bytes → Bytes
  pub can_encrypt :
      (key iv : Bytes) → length key ≡ 32 → length iv ≡ 16 → p.encrypt_init key iv ≡ true
  pub can_decrypt :
      (key iv : Bytes) → length key ≡ 32 → length iv ≡ 16 → p.decrypt_init key iv ≡ true
  pub encrypt :
      (key iv input : Bytes)
      → length key ≡ 32
      → length iv ≡ 16
      → p.aes_encrypt key iv input ≡ some (ciphertext key iv input)
  pub decrypt :
      (key iv input : Bytes)
      → length key ≡ 32
      → length iv ≡ 16
      → p.aes_decrypt key iv (ciphertext key iv input) ≡ some input
  pub some_block : (key iv input : Bytes) → 1 ≤ length (ciphertext key iv input)
  pub whole_blocks : (key iv input : Bytes) → length (ciphertext key iv input) % 16 ≡ 0
  pub ciphertext-IsBytes :
      (key iv input : Bytes) → IsBytes input → IsBytes (ciphertext key iv input)
