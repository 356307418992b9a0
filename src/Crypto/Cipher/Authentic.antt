-- ===== src/Crypto/Cipher/Authentic.antt =====
-- Nothing is decrypted unless its MAC is right.
use harbour_leyni.Prelude.{
  ◌≤◌, ◌≡◌, ◌≢◌, ap, ◌∙◌, arith, true, Bool-cases, inl, inr, ◌||◌, not, ◌==◌, ◌++◌, some, Bytes,
  length, is_empty-of_length, length-of_is_empty, ok, throw, >>=-eq-ok, throw_if-eq-ok,
}
use harbour_leyni.Crypto.Primitives.{Primitives, Digest}
use harbour_leyni.Crypto.SecureBytes.{constant_time_equal, constant_time_equal_iff}
use harbour_leyni.Crypto.Keys.{SymmetricKey, IsKey, hmac_sha256}
use harbour_leyni.Crypto.EncString.{EncString}
use harbour_leyni.Crypto.EncString.RoundTrip.{IsTypeTwo}
use harbour_leyni.Crypto.Cipher.{mac_input, decrypt_aes256_cbc_hmac}

module _ (p : Primitives) where
  pub hmac_sha256_sound :
      (key input : Bytes) {mac : Bytes}
      → hmac_sha256 p key input ≡ ok mac
      → (1 ≤ length key) × (p.hmac Digest.sha256 key input ≡ some mac) × (length mac ≡ 32)
  unfolding hmac_sha256
  hmac_sha256_sound key input h = ground (arith, length-of_is_empty key)

  pub hmac_sha256_complete :
      (key input mac : Bytes)
      → 1 ≤ length key
      → p.hmac Digest.sha256 key input ≡ some mac
      → length mac ≡ 32
      → hmac_sha256 p key input ≡ ok mac
  unfolding hmac_sha256
  hmac_sha256_complete key input mac h e size = ground (arith, is_empty-of_length key h)

  pub decrypt_type :
      (enc : EncString) (key : SymmetricKey) {out : Bytes}
      → decrypt_aes256_cbc_hmac p enc key ≡ ok out
      → enc.type ≡ 2
  unfolding decrypt_aes256_cbc_hmac
  decrypt_type enc key h = let g = (throw_if-eq-ok (not (enc.type == 2)) _ _ h).0 in ground arith

  -- A decryption that succeeds had the right MAC over its iv and ciphertext, and is what the
  -- cipher gives for them.
  pub decrypt_authentic :
      (enc : EncString) (key : SymmetricKey) {out : Bytes}
      → length enc.mac ≡ 32
      → decrypt_aes256_cbc_hmac p enc key ≡ ok out
      → IsKey key
        × (p.hmac Digest.sha256 key.mac_key (enc.iv ++ enc.ciphertext) ≡ some enc.mac)
        × (p.aes_decrypt key.enc_key enc.iv enc.ciphertext ≡ some out)
  unfolding decrypt_aes256_cbc_hmac
  decrypt_authentic enc key {out} size h =
      let g1 = throw_if-eq-ok (not (enc.type == 2)) _ _ h in
      let g2 =
        throw_if-eq-ok (not (length key.enc_key == 32) || not (length key.mac_key == 32)) _ _
          g1.1 in
      let (expected, hm, h3) = >>=-eq-ok (hmac_sha256 p key.mac_key (mac_input enc)) _ g2.1 in
      let mac = hmac_sha256_sound key.mac_key (mac_input enc) hm in
      let g4 =
        throw_if-eq-ok (not (constant_time_equal expected enc.mac (length expected))) _ _ h3 in
      let g5 = throw_if-eq-ok (not (p.decrypt_init key.enc_key enc.iv)) _ _ g4.1 in
      let equal : constant_time_equal expected enc.mac (length expected) ≡ true =
        ground (arith, g4.0) in
      let same : expected ≡ enc.mac =
        (constant_time_equal_iff expected enc.mac (omega arith) (omega arith)).0 equal in
      let key_sizes : IsKey key = ground (arith, g2.0) in
      (key_sizes, mac.1 ∙ ap some same, ground (arith, g5.1))

  -- With another MAC the answer is the same error whatever the cipher would do.
  pub decrypt_bad_mac :
      (enc : EncString) (key : SymmetricKey) (expected : Bytes)
      → IsTypeTwo enc
      → IsKey key
      → p.hmac Digest.sha256 key.mac_key (enc.iv ++ enc.ciphertext) ≡ some expected
      → length expected ≡ 32
      → expected ≢ enc.mac
      → decrypt_aes256_cbc_hmac p enc key ≡ throw "decryptAes256CbcHmac: MAC verification failed"
  unfolding decrypt_aes256_cbc_hmac
  decrypt_bad_mac enc key expected v k e size ne =
      let mac =
        hmac_sha256_complete key.mac_key (mac_input enc) expected (omega (arith, k.mac_size)) e
          size in
      let both =
        constant_time_equal_iff expected enc.mac (omega arith) (omega (arith, v.mac_size)) in
      elim (Bool-cases (constant_time_equal expected enc.mac (length expected))) [
        | inl same ↦ absurd (ne (both.0 same))
        | inr differ ↦ ground (arith, mac, differ, k.enc_size, k.mac_size, v.type_two)
      ]
