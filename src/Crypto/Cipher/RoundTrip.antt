-- ===== src/Crypto/Cipher/RoundTrip.antt =====
-- Decrypting what was encrypted, for any cipher with the documented laws.
use harbour_leyni.Prelude.{◌≡◌, refl, arith, ◌++◌, Bytes, IsBytes, length, ok}
use harbour_leyni.Crypto.Primitives.{Primitives, HmacLaws, AesLaws}
use harbour_leyni.Crypto.SecureBytes.{constant_time_equal_iff}
use harbour_leyni.Crypto.Keys.{SymmetricKey, IsKey, hmac_sha256}
use harbour_leyni.Crypto.EncString.{EncString}
use harbour_leyni.Crypto.EncString.RoundTrip.{IsTypeTwo}
use harbour_leyni.Crypto.Cipher.{decrypt_aes256_cbc_hmac, encrypt_aes256_cbc_hmac_with_iv}
use harbour_leyni.Crypto.Cipher.Authentic.{hmac_sha256_complete}

module _ (p : Primitives) (macs : HmacLaws p) (aes : AesLaws p) where
  -- The value that an encryption gives.
  pub sealed : Bytes → SymmetricKey → Bytes → EncString
  sealed plaintext key iv =
      let ciphertext = aes.ciphertext key.enc_key iv plaintext in
      record {
        type = 2;
        iv = iv;
        ciphertext = ciphertext;
        mac = macs.mac key.mac_key (iv ++ ciphertext);
      }

  hmac-eq :
      (key : SymmetricKey) (input : Bytes)
      → IsKey key
      → hmac_sha256 p key.mac_key input ≡ ok (macs.mac key.mac_key input)
  hmac-eq key input k =
      hmac_sha256_complete p key.mac_key input (macs.mac key.mac_key input)
        (omega (arith, k.mac_size)) (macs.total key.mac_key input)
        (macs.length_mac key.mac_key input)

  pub encrypt-eq :
      (plaintext : Bytes) (key : SymmetricKey) (iv : Bytes)
      → IsKey key
      → length iv ≡ 16
      → encrypt_aes256_cbc_hmac_with_iv p plaintext key iv ≡ ok (sealed plaintext key iv)
  unfolding encrypt_aes256_cbc_hmac_with_iv sealed
  encrypt-eq plaintext key iv k size = ground (
    arith,
    k.enc_size,
    k.mac_size,
    aes.can_encrypt key.enc_key iv k.enc_size size,
    aes.encrypt key.enc_key iv plaintext k.enc_size size,
    hmac-eq key (iv ++ aes.ciphertext key.enc_key iv plaintext) k,
  )

  pub sealed-IsTypeTwo :
      (plaintext : Bytes) (key : SymmetricKey) (iv : Bytes)
      → length iv ≡ 16
      → IsBytes plaintext
      → IsBytes iv
      → IsTypeTwo (sealed plaintext key iv)
  unfolding sealed
  sealed-IsTypeTwo plaintext key iv size vp vi = record {
    type_two = refl;
    iv_size = size;
    mac_size = macs.length_mac _ _;
    some_block = aes.some_block _ _ _;
    whole_blocks = aes.whole_blocks _ _ _;
    iv_bytes = vi;
    ciphertext_bytes = aes.ciphertext-IsBytes _ _ _ vp;
    mac_bytes = macs.mac-IsBytes _ _;
  }

  pub decrypt-sealed :
      (plaintext : Bytes) (key : SymmetricKey) (iv : Bytes)
      → IsKey key
      → length iv ≡ 16
      → decrypt_aes256_cbc_hmac p (sealed plaintext key iv) key ≡ ok plaintext
  unfolding decrypt_aes256_cbc_hmac sealed
  decrypt-sealed plaintext key iv k size =
      let ciphertext = aes.ciphertext key.enc_key iv plaintext in
      let mac : Bytes = macs.mac key.mac_key (iv ++ ciphertext) in
      let long : length mac ≡ 32 = macs.length_mac key.mac_key (iv ++ ciphertext) in
      let equal = (constant_time_equal_iff mac mac (omega arith) refl).1 refl in
      ground (
        arith,
        k.enc_size,
        k.mac_size,
        aes.can_decrypt key.enc_key iv k.enc_size size,
        aes.decrypt key.enc_key iv plaintext k.enc_size size,
        hmac-eq key (iv ++ ciphertext) k,
        equal,
      )

  -- Under one key, what was encrypted with any 16-byte iv is a well-formed type 2 value that
  -- decrypts to the plaintext.
  pub decrypt-encrypt :
      (plaintext : Bytes) (key : SymmetricKey) (iv : Bytes)
      → IsKey key
      → length iv ≡ 16
      → IsBytes plaintext
      → IsBytes iv
      → (enc : EncString) × (encrypt_aes256_cbc_hmac_with_iv p plaintext key iv ≡ ok enc)
        × IsTypeTwo enc
        × (decrypt_aes256_cbc_hmac p enc key ≡ ok plaintext)
  decrypt-encrypt plaintext key iv k size vp vi = (
    sealed plaintext key iv,
    encrypt-eq plaintext key iv k size,
    sealed-IsTypeTwo plaintext key iv size vp vi,
    decrypt-sealed plaintext key iv k size,
  )
