-- ===== src/Crypto/Kdf/Bounds.antt =====
-- The work that a server can make the client do.
use harbour_leyni.Prelude.{
  ℕ, ◌*◌, ◌≤◌, ◌≡◌, inr, arith, some, Bytes, length, is_empty, length-of_is_empty,
  is_empty-of_length, ok, >>=-eq-ok, throw_if-eq-ok,
}
use harbour_leyni.Crypto.Primitives.{Primitives}
use harbour_leyni.Crypto.Kdf.Params.{
  KdfType, KdfParams, max_pbkdf2_iterations, max_argon2_iterations, max_argon2_memory_mib,
  max_argon2_parallelism,
}
use harbour_leyni.Crypto.Kdf.{pbkdf2_sha256, argon2id, sha256, derive_by, derive_master_key}

-- The parameters that the header of the module allows, by type.
abbrev pub InBounds : KdfParams → KdfType → Type 0
InBounds k KdfType.pbkdf2_sha256 = (1 ≤ k.iterations) × (k.iterations ≤ max_pbkdf2_iterations)
InBounds k KdfType.argon2id =
    (1 ≤ k.iterations)
    × (k.iterations ≤ max_argon2_iterations)
    × (1 ≤ k.memory_mib)
    × (k.memory_mib ≤ max_argon2_memory_mib)
    × (1 ≤ k.parallelism)
    × (k.parallelism ≤ max_argon2_parallelism)
InBounds k (KdfType.other n) = ⊥

-- The call of the library that computes the key.
abbrev pub Computes : Primitives → Bytes → Bytes → KdfParams → KdfType → Bytes → Type 0
Computes p password email k KdfType.pbkdf2_sha256 key =
    p.pbkdf2 password email k.iterations 32 ≡ some key
Computes p password email k KdfType.argon2id key =
    (salt : Bytes) × (p.digest_sha256 email ≡ some salt)
    × (length salt ≡ 32)
    × (p.argon2id_hash_raw k.iterations (k.memory_mib * 1024) k.parallelism password salt 32
        ≡ inr key)
Computes p password email k (KdfType.other n) key = ⊥

module _ (p : Primitives) where
  pbkdf2_sha256_sound :
      (password salt : Bytes) (iterations out_len : ℕ) {out : Bytes}
      → pbkdf2_sha256 p password salt iterations out_len ≡ ok out
      → ((1 ≤ iterations) × (iterations ≤ max_pbkdf2_iterations))
        × (p.pbkdf2 password salt iterations out_len ≡ some out)
  unfolding pbkdf2_sha256
  pbkdf2_sha256_sound password salt iterations out_len h = ground arith

  -- Argon2 is called only with costs in range, and the memory in KiB has not wrapped around.
  pub argon2id_sound :
      (password salt : Bytes) (t m l out_len : ℕ) {out : Bytes}
      → argon2id p password salt t m l out_len ≡ ok out
      → ((1 ≤ t)
          × (t ≤ max_argon2_iterations)
          × (1 ≤ m)
          × (m ≤ max_argon2_memory_mib)
          × (1 ≤ l)
          × (l ≤ max_argon2_parallelism))
        × (p.argon2id_hash_raw t (m * 1024) l password salt out_len ≡ inr out)
  unfolding argon2id
  argon2id_sound password salt t m l out_len h = ground arith

  sha256_sound :
      (input : Bytes) {out : Bytes}
      → sha256 p input ≡ ok out
      → (p.digest_sha256 input ≡ some out) × (length out ≡ 32)
  unfolding sha256
  sha256_sound input h = ground arith

  derive_by_sound :
      (type : KdfType) (password email : Bytes) (k : KdfParams) {key : Bytes}
      → derive_by p type password email k ≡ ok key
      → InBounds k type × Computes p password email k type key
  unfolding derive_by
  derive_by_sound KdfType.pbkdf2_sha256 password email k h =
      pbkdf2_sha256_sound password email k.iterations 32 h
  derive_by_sound KdfType.argon2id password email k h =
      let (salt, digest, hash) = >>=-eq-ok (sha256 p email) _ h in
      let call = argon2id_sound password salt k.iterations k.memory_mib k.parallelism 32 hash in
      (call.0, (salt, (sha256_sound email digest).0, (sha256_sound email digest).1, call.1))
  derive_by_sound (KdfType.other n) password email k h = absurd (cc)

  -- A master key is derived only from a password and an email that are not empty, with parameters
  -- within the bounds of their type, and is what the library computes for exactly these parameters.
  pub derive_master_key_sound :
      (password email : Bytes) (k : KdfParams) {key : Bytes}
      → derive_master_key p password email k ≡ ok key
      → (1 ≤ length password)
        × (1 ≤ length email)
        × InBounds k k.type
        × Computes p password email k k.type key
  unfolding derive_master_key
  derive_master_key_sound password email k h =
      let g1 = throw_if-eq-ok (is_empty password) _ _ h in
      let g2 = throw_if-eq-ok (is_empty email) _ _ g1.1 in
      let d = derive_by_sound k.type password email k g2.1 in
      (length-of_is_empty password g1.0, length-of_is_empty email g2.0, d.0, d.1)

  derive_by_complete :
      (type : KdfType) (password email : Bytes) (k : KdfParams) {key : Bytes}
      → InBounds k type
      → Computes p password email k type key
      → derive_by p type password email k ≡ ok key
  unfolding derive_by pbkdf2_sha256 argon2id sha256
  derive_by_complete KdfType.pbkdf2_sha256 password email k b c = ground arith
  derive_by_complete KdfType.argon2id password email k b (salt, digest, size, hash) = ground arith
  derive_by_complete (KdfType.other n) password email k b c = absurd b

  -- And every such derivation succeeds: the bounds refuse nothing else.
  pub derive_master_key_complete :
      (password email : Bytes) (k : KdfParams) {key : Bytes}
      → 1 ≤ length password
      → 1 ≤ length email
      → InBounds k k.type
      → Computes p password email k k.type key
      → derive_master_key p password email k ≡ ok key
  unfolding derive_master_key
  derive_master_key_complete password email k hp he b c =
      rw (is_empty-of_length password hp, is_empty-of_length email he)
        (derive_by_complete k.type password email k b c)
