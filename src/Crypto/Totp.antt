-- ===== src/Crypto/Totp.antt =====
-- src/crypto/totp.{h,cpp}: base32 secrets, HOTP and TOTP codes.
pub mod Base32
pub mod Code
use harbour_leyni.Prelude.{
  ℕ, zero, suc, ◌+◌, ◌-◌, ◌*◌, ◌/◌, ◌%◌, ◌^◌, ◌&&◌, ◌||◌, not, ltb, leb, ◌==◌, if◌then◌else◌, List,
  [], ◌∷◌, Bytes, length, is_empty, get_or, Result, ok, throw, throw_if, or_throw, ◌>>=◌, ◌>>◌, map,
}
use harbour_leyni.Prelude.Decimal.{to_string}
use harbour_leyni.Crypto.Primitives.{Primitives, Digest}

-- The value of a letter or digit of the base32 alphabet, in either case.
unfoldable pub base32_value : ℕ → Result ℕ
base32_value c =
    if leb b'A' c && leb c b'Z'
    then ok (c - b'A')
    else if leb b'a' c && leb c b'z'
    then ok (c - b'a')
    else if leb b'2' c && leb c b'7'
    then ok (c - b'2' + 26)
    else throw "base32Decode: invalid character"

-- The loop over the text; `buffer` is a `uint32_t`.
unfoldable pub base32_loop : Bytes → ℕ → ℕ → Result Bytes
base32_loop [] buffer bits = ok []
base32_loop (c ∷ cs) buffer bits =
    let skip = base32_loop cs buffer bits in
    let next = λ (value : ℕ).
      (let buffer' = buffer * 32 % 2 ^ 32 + value in
        let emit = base32_loop cs buffer' (bits + 5 - 8) in
        let wait = base32_loop cs buffer' (bits + 5) in
        if leb 8 (bits + 5)
        then (emit >>= λ out. ok ((buffer' / 2 ^ (bits + 5 - 8) % 256) ∷ out))
        else wait) in
    if c == b' ' || c == b'=' then skip else (base32_value c >>= next)

unfoldable pub base32_decode : Bytes → Result Bytes
base32_decode text = base32_loop text 0 0

abbrev pub TotpAlgorithm : Type 0
TotpAlgorithm = Digest

-- Eight rounds, the lowest byte last.
unfoldable pub counter_bytes : ℕ → ℕ → Bytes → Bytes
counter_bytes zero counter out = out
counter_bytes (suc n) counter out = counter_bytes n (counter / 256) ((counter % 256) ∷ out)

-- The dynamic truncation of RFC 4226, section 5.3.
unfoldable pub truncate : Bytes → ℕ
truncate mac =
    let offset = get_or mac (length mac - 1) 0 % 16 in
    get_or mac offset 0 % 128 * 2 ^ 24
    + get_or mac (offset + 1) 0 * 2 ^ 16
    + get_or mac (offset + 2) 0 * 2 ^ 8
    + get_or mac (offset + 3) 0

-- `modulus *= 10`, in `uint64_t`.
unfoldable pub modulus_loop : ℕ → ℕ → ℕ
modulus_loop zero modulus = modulus
modulus_loop (suc n) modulus = modulus_loop n (modulus * 10 % 2 ^ 64)

-- `while (result.size() < digits)`: `width` rounds are enough.
unfoldable pub pad_zeros : ℕ → ℕ → Bytes → Bytes
pad_zeros zero width result = result
pad_zeros (suc fuel) width result =
    let rest = pad_zeros fuel width (b'0' ∷ result) in
    if ltb (length result) width then rest else result

unfoldable pub print_code : ℕ → ℕ → Bytes
print_code binary digits = pad_zeros digits digits (to_string (binary % modulus_loop digits 1))

module _ (p : Primitives) where
  unfoldable pub hotp : Bytes → ℕ → ℕ → TotpAlgorithm → Result Bytes
  hotp key counter digits algorithm = do
    throw_if (is_empty key) "hotp: empty key"
    throw_if (ltb digits 6 || ltb 10 digits) "hotp: digits out of range"
    mac ← or_throw (p.hmac algorithm key (counter_bytes 8 counter [])) "hotp: HMAC failed"
    throw_if (ltb (length mac) 20) "hotp: HMAC failed"
    ok (print_code (truncate mac) digits)

  unfoldable pub totp : Bytes → ℕ → ℕ → ℕ → TotpAlgorithm → Result Bytes
  totp key unix_time period_seconds digits algorithm = do
    throw_if (period_seconds == 0) "totp: zero period"
    hotp key (unix_time / period_seconds) digits algorithm
