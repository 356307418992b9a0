-- ===== src/Crypto/PinWrap/RoundTrip.antt =====
-- The storage form, read back.
use harbour_leyni.Prelude.{
  bytes_equal, bytes_equal_self, ℕ, suc, holds_below, holds_below_sound, leb, leb→le, ◌+◌, ◌-◌, ◌*◌,
  ◌%◌, ◌^◌, ◌≤◌, ◌<◌, ◌≡◌, refl, ◌∙◌, arith, true, [], ◌∷◌, ◌++◌, Bytes, IsBytes, All, Lacks,
  length, is_empty-of_length, take_append, ok, ◌>>=◌,
}
use native.Mathlib.Nat.{pow-suc}
use harbour_leyni.Prelude.Search.{find-append, drop_after}
use harbour_leyni.Prelude.Decimal.{
  IsDigit, is_digit, stoi, to_string, stoi-to_string, to_string-digits, length-to_string,
  to_string_some, digits-Lacks,
}
use harbour_leyni.Crypto.Base64
use harbour_leyni.Crypto.Base64.{decode_char}
use harbour_leyni.Crypto.Base64.RoundTrip.{decode-encode}
use harbour_leyni.Crypto.Base64.Sound.{encode-Lacks}
use harbour_leyni.Crypto.EncString
use harbour_leyni.Crypto.EncString.{EncString}
use harbour_leyni.Crypto.PinWrap.{
  PinWrappedKey, tag, uint_loop, parse_uint, serialize, cut_fields, parse_fields, parse,
}

small_powers : holds_below 9 (λ k. leb (10 ^ k) (10 ^ 8)) ≡ true
unfolding holds_below
small_powers = refl

power_le : (k : ℕ) → k < 9 → 10 ^ k ≤ 10 ^ 8
power_le k h = leb→le _ _ (holds_below_sound 9 _ k small_powers h)

-- Nine digits do not overflow `uint32_t`.
uint_loop-stoi :
    (s : Bytes) (value k : ℕ)
    → All IsDigit s
    → length s + k ≤ 9
    → value < 10 ^ k
    → uint_loop value s ≡ ok (stoi value s)
unfolding uint_loop stoi is_digit
uint_loop-stoi [] value k d h v = refl
uint_loop-stoi (c ∷ s) value k d h v =
    let digit : (b'0' ≤ c) × (c ≤ b'9') = d.0 in
    let small : value * 10 + (c - b'0') < 10 ^ suc k = omega (arith, pow-suc 10 k) in
    let fits : (value * 10 + (c - b'0')) % 2 ^ 32 ≡ value * 10 + (c - b'0') =
      omega (arith, power_le k (omega arith)) in
    let ih = uint_loop-stoi s (value * 10 + (c - b'0')) (suc k) d.1 (omega arith) small in
    rw fits (ground (arith, ih))

-- The fields are written in nine digits at most.
parse_uint-to_string : (n : ℕ) → n < 10 ^ 9 → parse_uint (to_string n) ≡ ok n
unfolding parse_uint
parse_uint-to_string n h =
    let size : length (to_string n) ≤ 9 = length-to_string 8 n h in
    ground (
      arith,
      is_empty-of_length (to_string n) (to_string_some n),
      uint_loop-stoi (to_string n) 0 0 (to_string-digits n) (omega arith) (omega arith),
      stoi-to_string n (omega arith),
    )

cut_fields-append :
    (n : ℕ) (field rest : Bytes)
    → Lacks b':' field
    → cut_fields (suc n) (field ++ b':' ∷ rest)
      ≡ (cut_fields n rest >>= λ parts. ok (field ∷ parts))
unfolding cut_fields
cut_fields-append n field rest h =
    rw (find-append b':' field rest h, cut_fields)
      (rw (take_append field (b':' ∷ rest), drop_after b':' field rest))

cut_fields_rest : (text : Bytes) → cut_fields 0 text ≡ ok (text ∷ [])
unfolding cut_fields
cut_fields_rest text = refl

-- What a stored key holds.
pub record IsStored (w : PinWrappedKey) : Type 0 where
  pub iterations_size : w.params.iterations < 10 ^ 9
  pub memory_size : w.params.memory_mib < 10 ^ 9
  pub parallelism_size : w.params.parallelism < 10 ^ 9
  pub salt_size : length w.salt ≡ 16
  pub salt_bytes : IsBytes w.salt
  pub enc : EncString
  pub parsed : EncString.parse w.enc_string ≡ ok enc

tag_equal : bytes_equal tag tag ≡ true
tag_equal = bytes_equal_self tag

colon-bad : decode_char b':' ≡ 255
unfolding decode_char
colon-bad = refl

to_string-Lacks : (n : ℕ) → Lacks b':' (to_string n)
to_string-Lacks n = digits-Lacks b':' (to_string n) (omega arith) (to_string-digits n)

cut_fields-serialize :
    (w : PinWrappedKey)
    → cut_fields 5 (serialize w)
      ≡ ok (
          tag
          ∷ to_string w.params.iterations
          ∷ to_string w.params.memory_mib
          ∷ to_string w.params.parallelism
          ∷ Base64.encode w.salt
          ∷ w.enc_string
          ∷ [])
unfolding serialize
cut_fields-serialize w =
    cut_fields-append 4 tag _ (omega arith)
    ∙ rw (
      cut_fields-append 3 (to_string w.params.iterations) _ (to_string-Lacks w.params.iterations),
      cut_fields-append 2 (to_string w.params.memory_mib) _ (to_string-Lacks w.params.memory_mib),
      cut_fields-append 1 (to_string w.params.parallelism) _ (to_string-Lacks w.params.parallelism),
      cut_fields-append 0 (Base64.encode w.salt) w.enc_string
          (encode-Lacks b':' colon-bad (omega arith) w.salt),
      cut_fields_rest w.enc_string,
    )

-- A key with numbers below 10^9, a 16-byte salt and an EncString that parses, of type 2 or 4, is read
-- back from its storage form.
pub parse-serialize_pin : (w : PinWrappedKey) → IsStored w → parse (serialize w) ≡ ok w
unfolding parse parse_fields
parse-serialize_pin w v = rw (cut_fields-serialize w) (
    rw (
      tag_equal,
      parse_uint-to_string w.params.iterations v.iterations_size,
      parse_uint-to_string w.params.memory_mib v.memory_size,
      parse_uint-to_string w.params.parallelism v.parallelism_size,
      decode-encode w.salt v.salt_bytes,
      v.salt_size,
      v.parsed,
    ))
