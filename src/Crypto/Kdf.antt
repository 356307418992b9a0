-- ===== src/Crypto/Kdf.antt =====
-- src/crypto/kdf.{h,cpp}: derivation of the master key, with the bounds on what a server may ask
-- for. A buffer is the list of its bytes.
pub mod Params
pub mod Bounds
use harbour_leyni.Prelude.{
  ℕ, ◌*◌, ◌%◌, ◌^◌, ◌||◌, not, inl, inr, ltb, ◌==◌, Bytes, length, is_empty, Result, ok, err,
  numbered, throw, throw_if, or_throw, ◌>>=◌, ◌>>◌, ◌⊎◌,
}
use harbour_leyni.Crypto.Primitives.{Primitives}
use Params.{
  KdfType, KdfParams, max_pbkdf2_iterations, max_argon2_iterations, max_argon2_memory_mib,
  max_argon2_parallelism,
}

-- What `argon2id_hash_raw` returned, or the exception for its error code.
abbrev raw_hash : ℕ ⊎ Bytes → Result Bytes
raw_hash (inl code) = err (numbered "argon2id: " code)
raw_hash (inr out) = ok out

module _ (p : Primitives) where
  unfoldable pub pbkdf2_sha256 : Bytes → Bytes → ℕ → ℕ → Result Bytes
  pbkdf2_sha256 password salt iterations out_len = do
    throw_if (iterations == 0 || ltb max_pbkdf2_iterations iterations)
        "pbkdf2Sha256: iteration count out of range"
    throw_if (out_len == 0) "pbkdf2Sha256: zero output length"
    or_throw (p.pbkdf2 password salt iterations out_len) "pbkdf2Sha256: PKCS5_PBKDF2_HMAC failed"

  -- `memoryMiB * 1024` is computed in `uint32_t`.
  unfoldable pub argon2id : Bytes → Bytes → ℕ → ℕ → ℕ → ℕ → Result Bytes
  argon2id password salt iterations memory_mib parallelism out_len = do
    throw_if (iterations == 0 || ltb max_argon2_iterations iterations)
        "argon2id: iteration count out of range"
    throw_if (memory_mib == 0 || ltb max_argon2_memory_mib memory_mib)
        "argon2id: memory out of range"
    throw_if (parallelism == 0 || ltb max_argon2_parallelism parallelism)
        "argon2id: parallelism out of range"
    throw_if (out_len == 0) "argon2id: zero output length"
    raw_hash (
        p.argon2id_hash_raw iterations (memory_mib * 1024 % 2 ^ 32) parallelism password salt
          out_len)

  unfoldable pub sha256 : Bytes → Result Bytes
  sha256 input = do
    out ← or_throw (p.digest_sha256 input) "sha256: EVP_Digest failed"
    throw_if (not (length out == 32)) "sha256: EVP_Digest failed"
    ok out

  -- The `switch` on the KDF type.
  unfoldable pub derive_by : KdfType → Bytes → Bytes → KdfParams → Result Bytes
  derive_by KdfType.pbkdf2_sha256 password email params =
      pbkdf2_sha256 password email params.iterations 32
  derive_by KdfType.argon2id password email params = do
    salt ← sha256 email
    argon2id password salt params.iterations params.memory_mib params.parallelism 32
  derive_by (KdfType.other n) password email params = throw "deriveMasterKey: unknown KDF type"

  unfoldable pub derive_master_key : Bytes → Bytes → KdfParams → Result Bytes
  derive_master_key password email_lower params = do
    throw_if (is_empty password) "deriveMasterKey: empty password"
    throw_if (is_empty email_lower) "deriveMasterKey: empty email"
    derive_by params.type password email_lower params

  unfoldable pub derive_master_password_hash : Bytes → Bytes → Result Bytes
  derive_master_password_hash master_key password = do
    throw_if (is_empty master_key || is_empty password) "deriveMasterPasswordHash: empty input"
    pbkdf2_sha256 master_key password 1 32
