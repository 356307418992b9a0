-- ===== src/Crypto/Kdf/Params.antt =====
-- src/crypto/kdf.h: the parameters of a derivation, and the largest values that are accepted.
use harbour_leyni.Prelude.{ℕ}

-- `other` is an `int` that is no enumerator.
pub data KdfType : Type 0 where
  pbkdf2_sha256 argon2id : KdfType
  other : ℕ → KdfType

pub record KdfParams : Type 0 where
  pub type : KdfType
  pub iterations : ℕ
  pub memory_mib : ℕ
  pub parallelism : ℕ

abbrev pub max_pbkdf2_iterations : ℕ
max_pbkdf2_iterations = 10_000_000

abbrev pub max_argon2_iterations : ℕ
max_argon2_iterations = 100

abbrev pub max_argon2_memory_mib : ℕ
max_argon2_memory_mib = 1024

abbrev pub max_argon2_parallelism : ℕ
max_argon2_parallelism = 16
