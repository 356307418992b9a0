-- ===== src/Crypto/Cipher.antt =====
-- The encryption of src/crypto/encstring.cpp: AES-256-CBC under an HMAC-SHA256 over iv || ciphertext,
-- and the unwrapping of type 4 values.
pub mod RoundTrip
pub mod Authentic
use harbour_leyni.Prelude.{
  ℕ, ◌||◌, not, ◌==◌, ◌++◌, [], Bytes, length, Option, Result, ok, throw, throw_if, or_throw, ◌>>=◌,
  ◌>>◌,
}
use harbour_leyni.Crypto.Primitives.{Primitives}
use harbour_leyni.Crypto.SecureBytes.{constant_time_equal}
use harbour_leyni.Crypto.Keys.{SymmetricKey, hmac_sha256, rsa_oaep_sha1_decrypt}
use harbour_leyni.Crypto.EncString.{EncString}

abbrev pub mac_input : EncString → Bytes
mac_input enc = enc.iv ++ enc.ciphertext

module _ (p : Primitives) where
  -- The bytes that the cipher wrote are the result, whether or not the padding shortened them.
  unfoldable pub decrypt_aes256_cbc_hmac : EncString → SymmetricKey → Result Bytes
  decrypt_aes256_cbc_hmac enc key = do
    throw_if (not (enc.type == 2)) "decryptAes256CbcHmac: not a type 2 EncString"
    throw_if (not (length key.enc_key == 32) || not (length key.mac_key == 32))
        "decryptAes256CbcHmac: bad key sizes"
    expected ← hmac_sha256 p key.mac_key (mac_input enc)
    throw_if (not (constant_time_equal expected enc.mac (length expected)))
        "decryptAes256CbcHmac: MAC verification failed"
    throw_if (not (p.decrypt_init key.enc_key enc.iv)) "decryptAes256CbcHmac: cipher init failed"
    or_throw (p.aes_decrypt key.enc_key enc.iv enc.ciphertext)
        "decryptAes256CbcHmac: decryption failed"

  unfoldable pub encrypt_aes256_cbc_hmac_with_iv : Bytes → SymmetricKey → Bytes → Result EncString
  encrypt_aes256_cbc_hmac_with_iv plaintext key iv = do
    throw_if (not (length key.enc_key == 32) || not (length key.mac_key == 32))
        "encryptAes256CbcHmac: bad key sizes"
    throw_if (not (p.encrypt_init key.enc_key iv)) "encryptAes256CbcHmac: cipher init failed"
    ciphertext ←
        or_throw (p.aes_encrypt key.enc_key iv plaintext) "encryptAes256CbcHmac: encryption failed"
    mac ← hmac_sha256 p key.mac_key (iv ++ ciphertext)
    ok (record { type = 2; iv = iv; ciphertext = ciphertext; mac = mac })

  -- `random` is what `RAND_bytes` gave for the iv.
  unfoldable pub encrypt_aes256_cbc_hmac : Option Bytes → Bytes → SymmetricKey → Result EncString
  encrypt_aes256_cbc_hmac random plaintext key = do
    iv ← or_throw random "encryptAes256CbcHmac: RAND_bytes failed"
    encrypt_aes256_cbc_hmac_with_iv plaintext key iv

  unfoldable pub decrypt_rsa_oaep_sha1 : EncString → Bytes → Result Bytes
  decrypt_rsa_oaep_sha1 enc private_key_der = do
    throw_if (not (enc.type == 4)) "decryptRsaOaepSha1: not a type 4 EncString"
    rsa_oaep_sha1_decrypt p private_key_der enc.ciphertext
