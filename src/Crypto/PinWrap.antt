-- ===== src/Crypto/PinWrap.antt =====
-- src/crypto/pinwrap.{h,cpp}: a secret wrapped under a PIN, and its storage form
-- "BWPIN1:<iterations>:<memory>:<parallelism>:<base64 salt>:<encstring>".
pub mod RoundTrip
pub mod Unwrap
use harbour_leyni.Prelude.{
  bytes_equal, ℕ, zero, suc, ◌+◌, ◌-◌, ◌*◌, ◌%◌, ◌^◌, Bool, true, false, ◌&&◌, ◌||◌, not, ltb, ◌==◌,
  if◌then◌else◌, List, [], ◌∷◌, ◌++◌, Option, none, some, Bytes, codes, length, is_empty, take,
  drop, Result, ok, throw, throw_if, or_throw, ◌>>=◌, ◌>>◌,
}
use harbour_leyni.Prelude.Search.{find}
use harbour_leyni.Prelude.Decimal.{is_digit, to_string}
use harbour_leyni.Crypto.Primitives.{Primitives}
use harbour_leyni.Crypto.Base64
use harbour_leyni.Crypto.EncString
use harbour_leyni.Crypto.Kdf.{argon2id}
use harbour_leyni.Crypto.Keys.{SymmetricKey, symmetric_key_from_bytes}
use harbour_leyni.Crypto.Cipher.{encrypt_aes256_cbc_hmac, decrypt_aes256_cbc_hmac}

pub record PinWrapParams : Type 0 where
  pub iterations : ℕ
  pub memory_mib : ℕ
  pub parallelism : ℕ

-- `PinWrapParams{}`
abbrev pub default_params : PinWrapParams
default_params = record { iterations = 8; memory_mib = 64; parallelism = 4 }

pub record PinWrappedKey : Type 0 where
  pub params : PinWrapParams
  pub salt : Bytes
  pub enc_string : Bytes

abbrev pub salt_len : ℕ
salt_len = 16

abbrev pub tag : Bytes
tag = codes "BWPIN1"

-- The loop of `parseUint`, in `uint32_t`.
unfoldable pub uint_loop : ℕ → Bytes → Result ℕ
uint_loop value [] = ok value
uint_loop value (c ∷ cs) =
    let next = uint_loop ((value * 10 + (c - b'0')) % 2 ^ 32) cs in
    if not (is_digit c) then throw "PinWrappedKey::parse: non-digit in field" else next

unfoldable pub parse_uint : Bytes → Result ℕ
parse_uint s = do
  throw_if (is_empty s || ltb 9 (length s)) "PinWrappedKey::parse: bad numeric field"
  uint_loop 0 s

unfoldable pub serialize : PinWrappedKey → Bytes
serialize w =
    tag
    ++ b':'
      ∷ (to_string w.params.iterations
          ++ b':'
            ∷ (to_string w.params.memory_mib
                ++ b':'
                  ∷ (to_string w.params.parallelism
                      ++ b':' ∷ (Base64.encode w.salt ++ b':' ∷ w.enc_string))))

-- `n` fields that end in ':', and the remainder.
unfoldable pub cut_fields : ℕ → Bytes → Result (List Bytes)
cut_fields zero text = ok (text ∷ [])
cut_fields (suc n) text = elim (find b':' text) [
  | none ↦ throw "PinWrappedKey::parse: too few fields"
  | some pos ↦ cut_fields n (drop (pos + 1) text) >>= λ rest. ok (take pos text ∷ rest)
]

unfoldable pub parse_fields : List Bytes → Result PinWrappedKey
parse_fields (name ∷ iterations ∷ memory_mib ∷ parallelism ∷ salt ∷ enc_string ∷ []) = do
  throw_if (not (bytes_equal name tag)) "PinWrappedKey::parse: bad tag"
  t ← parse_uint iterations
  m ← parse_uint memory_mib
  l ← parse_uint parallelism
  salt_bytes ← Base64.decode salt
  throw_if (not (length salt_bytes == salt_len)) "PinWrappedKey::parse: wrong salt length"
  checked ← EncString.parse enc_string
  ok (record {
    params = record { iterations = t; memory_mib = m; parallelism = l };
    salt = salt_bytes;
    enc_string = enc_string;
  })
parse_fields _ = throw "PinWrappedKey::parse: too few fields"

unfoldable pub parse : Bytes → Result PinWrappedKey
parse text = do parts ← cut_fields 5 text; parse_fields parts

-- `random` is what `RAND_bytes` gave; it is not called for no bytes.
unfoldable pub random_bytes : ℕ → Option Bytes → Result Bytes
random_bytes n random = if n == 0 then ok [] else or_throw random "randomBytes: RAND_bytes failed"

module _ (p : Primitives) where
  unfoldable pub derive_kek : Bytes → Bytes → PinWrapParams → Result SymmetricKey
  derive_kek pin salt params = do
    raw ← argon2id p pin salt params.iterations params.memory_mib params.parallelism 64
    symmetric_key_from_bytes raw

  -- The random salt and the random iv of the encryption are arguments.
  unfoldable pub wrap_with_pin : Option Bytes → Option Bytes → Bytes → Bytes → Result PinWrappedKey
  wrap_with_pin random_salt random_iv secret pin = do
    salt ← random_bytes salt_len random_salt
    kek ← derive_kek pin salt default_params
    enc ← encrypt_aes256_cbc_hmac p random_iv secret kek
    text ← EncString.serialize enc
    ok (record { params = default_params; salt = salt; enc_string = text })

  unfoldable pub unwrap_with_pin : PinWrappedKey → Bytes → Result Bytes
  unwrap_with_pin wrapped pin = do
    kek ← derive_kek pin wrapped.salt wrapped.params
    enc ← EncString.parse wrapped.enc_string
    decrypt_aes256_cbc_hmac p enc kek
