-- ===== src/Tests/Keys.antt =====
-- Key derivation, encryption and PIN wrapping, over the toy primitives.
use harbour_leyni.Prelude.{
  ◌*◌, ◌≤◌, ◌≡◌, ◌≢◌, refl, ap, get_or, arith, some, inr, [], ◌∷◌, ◌++◌, Bytes, IsBytes, codes,
  length, ok, throw,
}
use harbour_leyni.Crypto.Primitives.{Digest}
use harbour_leyni.Crypto.Kdf.{argon2id, sha256, derive_by, derive_master_key}
use harbour_leyni.Crypto.Kdf.Params.{KdfType, KdfParams}
use harbour_leyni.Crypto.Kdf.Bounds.{
  InBounds, Computes, derive_master_key_sound, derive_master_key_complete,
}
use harbour_leyni.Crypto.Keys.{
  SymmetricKey, IsKey, symmetric_key_from_bytes, symmetric_key_from_bytes_sound, hkdf_expand_sha256,
  stretch_master_key, stretch_master_key-IsKey, hmac_sha256,
}
use harbour_leyni.Crypto.SecureBytes.{constant_time_equal, compare_loop}
use harbour_leyni.Crypto.EncString
use harbour_leyni.Crypto.EncString.{EncString}
use harbour_leyni.Crypto.EncString.RoundTrip.{IsTypeTwo}
use harbour_leyni.Crypto.Cipher.{decrypt_aes256_cbc_hmac, encrypt_aes256_cbc_hmac_with_iv}
use harbour_leyni.Crypto.Cipher.RoundTrip.{decrypt-encrypt}
use harbour_leyni.Crypto.Cipher.Authentic.{decrypt_authentic, decrypt_bad_mac}
use harbour_leyni.Crypto.PinWrap
use harbour_leyni.Crypto.PinWrap.{PinWrappedKey, wrap_with_pin, unwrap_with_pin}
use harbour_leyni.Crypto.PinWrap.Unwrap.{unwrap-wrap, unwrap_authentic}
use harbour_leyni.Crypto.PinWrap.RoundTrip.{parse-serialize_pin}
use harbour_leyni.Crypto.Base64
use harbour_leyni.Prelude.Search.{find}
use harbour_leyni.Prelude.Decimal.{is_digit, stoi}
use harbour_leyni.Tests.Toy.{replicate, toy, toy-HmacLaws, toy-AesLaws}

abbrev password : Bytes
password = codes "hunter2"

abbrev email : Bytes
email = codes "a@b.is"

abbrev argon_params : KdfParams
argon_params = record { type = KdfType.argon2id; iterations = 3; memory_mib = 64; parallelism = 4 }

derives : derive_master_key toy password email argon_params ≡ ok (replicate 32 7)
unfolding derive_master_key derive_by argon2id sha256 toy replicate
derives = refl

too_much_memory :
    derive_master_key toy password email (record argon_params { memory_mib = 1025 })
    ≡ throw "argon2id: memory out of range"
unfolding derive_master_key derive_by argon2id sha256 toy replicate
too_much_memory = refl

derive_master_key_sound_example :
    (1 ≤ 7)
    × (1 ≤ 6)
    × InBounds argon_params KdfType.argon2id
    × Computes toy password email argon_params KdfType.argon2id (replicate 32 7)
derive_master_key_sound_example = derive_master_key_sound toy password email argon_params derives

derive_master_key_complete_example :
    derive_master_key toy password email argon_params ≡ ok (replicate 32 7)
unfolding toy replicate
derive_master_key_complete_example =
    derive_master_key_complete toy password email argon_params (omega arith) (omega arith)
      (omega arith) (replicate 32 9, refl, refl, refl)

stretches :
    stretch_master_key toy (replicate 32 7)
    ≡ ok (record { enc_key = replicate 32 11; mac_key = replicate 32 11 })
unfolding stretch_master_key hkdf_expand_sha256 toy replicate
stretches = refl

stretch_master_key-IsKey_example :
    IsKey (record { enc_key = replicate 32 11; mac_key = replicate 32 11 })
stretch_master_key-IsKey_example = stretch_master_key-IsKey toy (replicate 32 7) stretches

abbrev key : SymmetricKey
key = record { enc_key = replicate 32 5; mac_key = replicate 32 5 }

key-IsKey : IsKey key
unfolding replicate
key-IsKey = record { enc_size = refl; mac_size = refl }

splits : symmetric_key_from_bytes (replicate 64 5) ≡ ok key
unfolding symmetric_key_from_bytes replicate
splits = refl

symmetric_key_from_bytes_sound_example : IsKey key × (key.enc_key ++ key.mac_key ≡ replicate 64 5)
symmetric_key_from_bytes_sound_example = symmetric_key_from_bytes_sound (replicate 64 5) splits

abbrev iv : Bytes
iv = replicate 16 1

iv-IsBytes : IsBytes iv
unfolding replicate
iv-IsBytes = omega arith

iv_size : length iv ≡ 16
unfolding replicate
iv_size = refl

decrypt-encrypt_example :
    (enc : EncString) × (encrypt_aes256_cbc_hmac_with_iv toy password key iv ≡ ok enc)
    × IsTypeTwo enc
    × (decrypt_aes256_cbc_hmac toy enc key ≡ ok password)
decrypt-encrypt_example =
    decrypt-encrypt toy toy-HmacLaws toy-AesLaws password key iv key-IsKey iv_size (omega arith)
      iv-IsBytes

-- A value whose MAC is the checksum of its iv and ciphertext under `key`.
abbrev genuine : EncString
genuine = record { type = 2; iv = iv; ciphertext = replicate 16 16; mac = replicate 32 176 }

opens : decrypt_aes256_cbc_hmac toy genuine key ≡ ok []
unfolding decrypt_aes256_cbc_hmac hmac_sha256 constant_time_equal compare_loop toy replicate
opens = refl

decrypt_authentic_example :
    IsKey key
    × (toy.hmac Digest.sha256 key.mac_key (genuine.iv ++ genuine.ciphertext) ≡ some genuine.mac)
    × (toy.aes_decrypt key.enc_key genuine.iv genuine.ciphertext ≡ some [])
unfolding replicate
decrypt_authentic_example = decrypt_authentic toy genuine key refl opens

abbrev tampered : EncString
tampered = record genuine { mac = replicate 32 177 }

tampered-IsTypeTwo : IsTypeTwo tampered
unfolding replicate
tampered-IsTypeTwo = record {
  type_two = refl;
  iv_size = refl;
  mac_size = refl;
  some_block = omega arith;
  whole_blocks = refl;
  iv_bytes = omega arith;
  ciphertext_bytes = omega arith;
  mac_bytes = omega arith;
}

first_differs : replicate 32 176 ≢ replicate 32 177
unfolding replicate
first_differs e = absurd (omega (arith, ap (λ (bs : Bytes). get_or bs 0 0) e))

decrypt_bad_mac_example :
    decrypt_aes256_cbc_hmac toy tampered key ≡ throw "decryptAes256CbcHmac: MAC verification failed"
unfolding toy replicate
decrypt_bad_mac_example =
    decrypt_bad_mac toy tampered key (replicate 32 176) tampered-IsTypeTwo key-IsKey refl refl
      first_differs

unwrap-wrap_example :
    (w : PinWrappedKey) × (wrap_with_pin toy (some iv) (some iv) password (codes "1234") ≡ ok w)
    × (PinWrap.parse (PinWrap.serialize w) ≡ ok w)
    × (unwrap_with_pin toy w (codes "1234") ≡ ok password)
unfolding toy replicate
unwrap-wrap_example =
    unwrap-wrap toy toy-HmacLaws toy-AesLaws password (codes "1234") iv iv (replicate 64 7)
      (omega arith) refl (omega arith) refl (omega arith) refl refl

-- A blob whose secret is empty.
abbrev blob : PinWrappedKey
blob = record {
  params = PinWrap.default_params;
  salt = iv;
  enc_string =
      codes "2."
      ++ (Base64.encode iv
          ++ b'|' ∷ (Base64.encode (replicate 16 16) ++ b'|' ∷ Base64.encode (replicate 32 240)));
}

blob_value : EncString
blob_value = record genuine { mac = replicate 32 240 }

blob_parses : EncString.parse blob.enc_string ≡ ok blob_value
unfolding blob_value EncString.parse EncString.parse_at EncString.all_digits EncString.parse_parts
    EncString.parse_two_parts EncString.parse_two EncString.split_parts find is_digit stoi
    Base64.decode Base64.padding Base64.read_groups Base64.read_group Base64.group_bytes
    Base64.decode_char Base64.encode Base64.encode_char replicate
blob_parses = refl

unwraps : unwrap_with_pin toy blob (codes "1234") ≡ ok []
unfolding unwrap_with_pin PinWrap.derive_kek symmetric_key_from_bytes argon2id blob_value
    decrypt_aes256_cbc_hmac hmac_sha256 constant_time_equal compare_loop toy replicate
unwraps = rw blob_parses

unwrap_authentic_example :
    (raw : Bytes) × (kek : SymmetricKey) × (enc : EncString) × (toy.argon2id_hash_raw 8
        (64 * 1024)
        4
        (codes "1234")
        iv
        64
      ≡ inr raw)
    × (kek.enc_key ++ kek.mac_key ≡ raw)
    × (EncString.parse blob.enc_string ≡ ok enc)
    × (toy.hmac Digest.sha256 kek.mac_key (enc.iv ++ enc.ciphertext) ≡ some enc.mac)
    × (toy.aes_decrypt kek.enc_key enc.iv enc.ciphertext ≡ some [])
unwrap_authentic_example = unwrap_authentic toy blob (codes "1234") unwraps

parse-serialize_pin_example : PinWrap.parse (PinWrap.serialize blob) ≡ ok blob
unfolding replicate
parse-serialize_pin_example = parse-serialize_pin blob (record {
  iterations_size = omega arith;
  memory_size = omega arith;
  parallelism_size = omega arith;
  salt_size = refl;
  salt_bytes = omega arith;
  enc = blob_value;
  parsed = blob_parses;
})

-- Costs that no derivation would accept are read back all the same.
zero_costs :
    PinWrap.parse (
      PinWrap.serialize
        (record blob { params = record { iterations = 0; memory_mib = 0; parallelism = 0 } }))
    ≡ ok (record blob { params = record { iterations = 0; memory_mib = 0; parallelism = 0 } })
unfolding replicate
zero_costs = parse-serialize_pin _ (record {
  iterations_size = omega arith;
  memory_size = omega arith;
  parallelism_size = omega arith;
  salt_size = refl;
  salt_bytes = omega arith;
  enc = blob_value;
  parsed = blob_parses;
})
