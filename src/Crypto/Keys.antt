-- ===== src/Crypto/Keys.antt =====
-- src/crypto/keys.{h,cpp}: key stretching, HMAC and the unwrapping of organization keys.
use harbour_leyni.Prelude.{
  ℕ, zero, suc, ◌+◌, ◌≡◌, refl, sym, subst, ◌∙◌, ap, arith, [], ◌∷◌, length-append, take_append,
  drop_append, ◌||◌, not, ◌==◌, ◌++◌, Bytes, codes, length, is_empty, take, drop, length-take,
  length-drop, take-append-drop, Result, ok, throw, throw_if, or_throw, ◌>>=◌, ◌>>◌, >>=-eq-ok,
  throw_if-eq-ok,
}
use mathlib.Core.Path.{ap₂}
use harbour_leyni.Crypto.Primitives.{
  Primitives, Digest, invalid_key, setup_failed, size_failed, decrypt_failed, plain,
}

pub record SymmetricKey : Type 0 where
  pub enc_key : Bytes
  pub mac_key : Bytes

-- Both halves have the size that the ciphers want.
pub record IsKey (k : SymmetricKey) : Type 0 where
  pub enc_size : length k.enc_key ≡ 32
  pub mac_size : length k.mac_key ≡ 32

module _ (p : Primitives) where
  unfoldable pub hkdf_expand_sha256 : Bytes → Bytes → ℕ → Result Bytes
  hkdf_expand_sha256 prk info out_len = do
    throw_if (is_empty prk) "hkdfExpandSha256: empty key"
    throw_if (out_len == 0) "hkdfExpandSha256: zero output length"
    out ← or_throw (p.hkdf_expand prk info out_len) "hkdfExpandSha256: derivation failed"
    throw_if (not (length out == out_len)) "hkdfExpandSha256: derivation failed"
    ok out

  unfoldable pub stretch_master_key : Bytes → Result SymmetricKey
  stretch_master_key master_key = do
    throw_if (not (length master_key == 32)) "stretchMasterKey: master key must be 32 bytes"
    enc_key ← hkdf_expand_sha256 master_key (codes "enc") 32
    mac_key ← hkdf_expand_sha256 master_key (codes "mac") 32
    ok (record { enc_key = enc_key; mac_key = mac_key })

  unfoldable pub hmac_sha256 : Bytes → Bytes → Result Bytes
  hmac_sha256 key input = do
    throw_if (is_empty key) "hmacSha256: empty key"
    mac ← or_throw (p.hmac Digest.sha256 key input) "hmacSha256: HMAC failed"
    throw_if (not (length mac == 32)) "hmacSha256: HMAC failed"
    ok mac

  unfoldable pub rsa_oaep_sha1_decrypt : Bytes → Bytes → Result Bytes
  rsa_oaep_sha1_decrypt private_key_der ciphertext = do
    throw_if (is_empty private_key_der || is_empty ciphertext) "rsaOaepSha1Decrypt: empty input"
    elim (p.rsa_oaep_decrypt private_key_der ciphertext) [
      | invalid_key ↦ throw "rsaOaepSha1Decrypt: invalid private key DER"
      | setup_failed ↦ throw "rsaOaepSha1Decrypt: context setup failed"
      | size_failed ↦ throw "rsaOaepSha1Decrypt: size query failed"
      | decrypt_failed ↦ throw "rsaOaepSha1Decrypt: decryption failed"
      | plain out ↦ ok out
    ]

unfoldable pub symmetric_key_from_bytes : Bytes → Result SymmetricKey
symmetric_key_from_bytes raw = do
  throw_if (not (length raw == 64)) "symmetricKeyFromBytes: expected 64 bytes (enc||mac)"
  ok (record { enc_key = take 32 raw; mac_key = take 32 (drop 32 raw) })

take_all : (n : ℕ) (xs : Bytes) → length xs ≡ n → take n xs ≡ xs
take_all zero [] e = refl
take_all zero (x ∷ xs) e = absurd (omega arith)
take_all (suc n) [] e = absurd (omega arith)
take_all (suc n) (x ∷ xs) e = ap (λ (ys : Bytes). x ∷ ys) (take_all n xs (omega arith))

halves :
    (n : ℕ) (raw : Bytes)
    → length raw ≡ n + n
    → (length (take n raw) ≡ n)
      × (length (take n (drop n raw)) ≡ n)
      × (take n raw ++ take n (drop n raw) ≡ raw)
halves n raw e =
    let rest : length (drop n raw) ≡ n = omega (arith, length-drop n raw) in
    (
      omega (arith, length-take n raw),
      omega (arith, length-take n (drop n raw)),
      ap (◌++◌ (take n raw)) (take_all n (drop n raw) rest) ∙ take-append-drop n raw,
    )

from_halves :
    (n : ℕ) (a b : Bytes)
    → length a ≡ n
    → length b ≡ n
    → (take n (a ++ b) ≡ a) × (take n (drop n (a ++ b)) ≡ b)
from_halves n a b ea eb =
    subst (λ (m : ℕ). (take m (a ++ b) ≡ a) × (take n (drop m (a ++ b)) ≡ b)) ea
      (take_append a b, ap (take n) (drop_append a b) ∙ take_all n b eb)

-- A key is made of exactly 64 bytes: the first 32 encrypt, the others authenticate.
pub symmetric_key_from_bytes_sound :
    (raw : Bytes) {k : SymmetricKey}
    → symmetric_key_from_bytes raw ≡ ok k
    → IsKey k × (k.enc_key ++ k.mac_key ≡ raw)
unfolding symmetric_key_from_bytes
symmetric_key_from_bytes_sound raw {k} h =
    let size : length raw ≡ 64 = (ground arith) in
    let parts = halves 32 raw size in
    let g = (throw_if-eq-ok (not (length raw == 64)) _ _ h).1 in
    let e1 : take 32 raw ≡ k.enc_key = cc g in
    let e2 : take 32 (drop 32 raw) ≡ k.mac_key = cc g in
    (
      record { enc_size = ap length (sym e1) ∙ parts.0; mac_size = ap length (sym e2) ∙ parts.1 },
      ap₂ (◌++◌) (sym e1) (sym e2) ∙ parts.2,
    )

pub symmetric_key-append :
    (k : SymmetricKey) → IsKey k → symmetric_key_from_bytes (k.enc_key ++ k.mac_key) ≡ ok k
symmetric_key-append k v =
    let parts = from_halves 32 k.enc_key k.mac_key v.enc_size v.mac_size in
    let size : length (k.enc_key ++ k.mac_key) ≡ 64 =
      omega (arith, length-append k.enc_key k.mac_key, v.enc_size, v.mac_size) in
    unfold symmetric_key_from_bytes in ground (arith, parts.0, parts.1, size)

module _ (p : Primitives) where
  hkdf_expand_sha256_size :
      (prk info : Bytes) (n : ℕ) {out : Bytes}
      → hkdf_expand_sha256 p prk info n ≡ ok out
      → length out ≡ n
  unfolding hkdf_expand_sha256
  hkdf_expand_sha256_size prk info n h = ground arith

  -- A stretched key has two 32-byte halves.
  pub stretch_master_key-IsKey :
      (master_key : Bytes) {k : SymmetricKey} → stretch_master_key p master_key ≡ ok k → IsKey k
  unfolding stretch_master_key
  stretch_master_key-IsKey master_key h =
      let g = throw_if-eq-ok (not (length master_key == 32)) _ _ h in
      let (a, ha, h1) = >>=-eq-ok (hkdf_expand_sha256 p master_key (codes "enc") 32) _ g.1 in
      let (b, hb, h2) = >>=-eq-ok (hkdf_expand_sha256 p master_key (codes "mac") 32) _ h1 in
      ground (
        arith,
        hkdf_expand_sha256_size master_key (codes "enc") 32 ha,
        hkdf_expand_sha256_size master_key (codes "mac") 32 hb,
      )
