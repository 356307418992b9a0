-- ===== src/Crypto/PinWrap/Unwrap.antt =====
-- Wrapping and unwrapping, for primitives with the documented laws.
use harbour_leyni.Prelude.{
  ◌*◌, ◌≡◌, inr, arith, ◌++◌, some, Bytes, IsBytes, length, take, drop, ok, >>=-eq-ok,
}
use harbour_leyni.Crypto.Primitives.{Primitives, Digest, HmacLaws, AesLaws}
use harbour_leyni.Crypto.Keys.{
  SymmetricKey, IsKey, symmetric_key_from_bytes, symmetric_key_from_bytes_sound,
}
use harbour_leyni.Crypto.Kdf.{argon2id}
use harbour_leyni.Crypto.Kdf.Bounds.{argon2id_sound}
use harbour_leyni.Crypto.EncString
use harbour_leyni.Crypto.EncString.{EncString}
use harbour_leyni.Crypto.EncString.RoundTrip.{IsTypeTwo}
use harbour_leyni.Crypto.EncString.RoundTrip as Text
use harbour_leyni.Crypto.EncString.Sound.{parse-IsTypeTwo}
use harbour_leyni.Crypto.Cipher.{encrypt_aes256_cbc_hmac}
use harbour_leyni.Crypto.Cipher.RoundTrip.{sealed, encrypt-eq, sealed-IsTypeTwo, decrypt-sealed}
use harbour_leyni.Crypto.Cipher.Authentic.{decrypt_authentic, decrypt_type}
use harbour_leyni.Crypto.PinWrap.{
  PinWrappedKey, default_params, random_bytes, derive_kek, wrap_with_pin, unwrap_with_pin,
  serialize, parse,
}
use harbour_leyni.Crypto.PinWrap.RoundTrip.{parse-serialize_pin}

module _ (p : Primitives) where
  derive_kek_default :
      (pin salt raw : Bytes) {kek : SymmetricKey}
      → p.argon2id_hash_raw 8 (64 * 1024) 4 pin salt 64 ≡ inr raw
      → symmetric_key_from_bytes raw ≡ ok kek
      → derive_kek p pin salt default_params ≡ ok kek
  unfolding derive_kek argon2id
  derive_kek_default pin salt raw h e = rw (h, e)

  -- An unwrapped secret came from the PIN: Argon2id was run with the stored costs, within bounds, and
  -- the stored MAC is the one under the derived key.
  pub unwrap_authentic :
      (w : PinWrappedKey) (pin : Bytes) {secret : Bytes}
      → unwrap_with_pin p w pin ≡ ok secret
      → (raw : Bytes) × (kek : SymmetricKey) × (enc : EncString) × (p.argon2id_hash_raw
            w.params.iterations
            (w.params.memory_mib * 1024)
            w.params.parallelism
            pin
            w.salt
            64
          ≡ inr raw)
        × (kek.enc_key ++ kek.mac_key ≡ raw)
        × (EncString.parse w.enc_string ≡ ok enc)
        × (p.hmac Digest.sha256 kek.mac_key (enc.iv ++ enc.ciphertext) ≡ some enc.mac)
        × (p.aes_decrypt kek.enc_key enc.iv enc.ciphertext ≡ some secret)
  unfolding unwrap_with_pin derive_kek
  unwrap_authentic w pin h =
      let k = w.params in
      let (kek, hk, h1) = >>=-eq-ok (derive_kek p pin w.salt k) _ h in
      let (enc, he, h2) = >>=-eq-ok (EncString.parse w.enc_string) _ h1 in
      let (raw, hr, h3) =
        >>=-eq-ok (argon2id p pin w.salt k.iterations k.memory_mib k.parallelism 64) _ hk in
      let two = parse-IsTypeTwo w.enc_string he (decrypt_type p enc kek h2) in
      let good = decrypt_authentic p enc kek two.mac_size h2 in
      (
        raw,
        kek,
        enc,
        (argon2id_sound p pin w.salt k.iterations k.memory_mib k.parallelism 64 hr).1,
        (symmetric_key_from_bytes_sound raw h3).1,
        he,
        good.1,
        good.2,
      )

module _ (p : Primitives) (macs : HmacLaws p) (aes : AesLaws p) where
  -- With the salt and iv of one run, the wrapped key unwraps to the secret under the same PIN, and so
  -- does the key read back from its storage form.
  pub unwrap-wrap :
      (secret pin salt iv raw : Bytes)
      → IsBytes secret
      → length salt ≡ 16
      → IsBytes salt
      → length iv ≡ 16
      → IsBytes iv
      → p.argon2id_hash_raw 8 (64 * 1024) 4 pin salt 64 ≡ inr raw
      → length raw ≡ 64
      → (w : PinWrappedKey) × (wrap_with_pin p (some salt) (some iv) secret pin ≡ ok w)
        × (parse (serialize w) ≡ ok w)
        × (unwrap_with_pin p w pin ≡ ok secret)
  unfolding wrap_with_pin unwrap_with_pin random_bytes encrypt_aes256_cbc_hmac
      symmetric_key_from_bytes
  unwrap-wrap secret pin salt iv raw vs ssalt vsalt siv viv hash size =
      let kek : SymmetricKey = record { enc_key = take 32 raw; mac_key = take 32 (drop 32 raw) } in
      let made : symmetric_key_from_bytes raw ≡ ok kek = ground (arith, size) in
      let k : IsKey kek = (symmetric_key_from_bytes_sound raw made).0 in
      let enc = sealed p macs aes secret kek iv in
      let two = sealed-IsTypeTwo p macs aes secret kek iv siv vs viv in
      let (text, written, read) = Text.parse-serialize enc two in
      let w : PinWrappedKey = record { params = default_params; salt = salt; enc_string = text } in
      let derived = derive_kek_default p pin salt raw hash made in
      (
        w,
        rw (derived, encrypt-eq p macs aes secret kek iv k siv, written),
        parse-serialize_pin w (record {
          iterations_size = omega arith;
          memory_size = omega arith;
          parallelism_size = omega arith;
          salt_size = ssalt;
          salt_bytes = vsalt;
          enc = enc;
          parsed = read;
        }),
        rw (derived, read, decrypt-sealed p macs aes secret kek iv k siv),
      )
