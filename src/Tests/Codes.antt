-- ===== src/Tests/Codes.antt =====
-- Base32 secrets and one-time codes.
use harbour_leyni.Prelude.{
  ℕ, ◌+◌, ◌*◌, ◌%◌, ◌^◌, ◌≤◌, ◌<◌, ◌≡◌, refl, some, [], Bytes, IsBytes, codes, length, ok,
}
use harbour_leyni.Prelude.Decimal.{to_string}
use harbour_leyni.Crypto.Primitives.{Digest}
use harbour_leyni.Crypto.Totp.{
  base32_value, base32_loop, base32_decode, counter_bytes, truncate, modulus_loop, pad_zeros,
  print_code, hotp, totp,
}
use harbour_leyni.Crypto.Totp.Base32.{Carries, number, base32_decode_sound}
use harbour_leyni.Crypto.Totp.Code.{IsCode, hotp_sound, totp_period}
use harbour_leyni.Tests.Toy.{replicate, toy}

decodes_foo : base32_decode (codes "mZxW 6===") ≡ ok (codes "foo")
unfolding base32_decode base32_loop base32_value
decodes_foo = refl

base32_decode_sound_example :
    (vs : Bytes) × (left rest : ℕ) × Carries (codes "mZxW 6===") vs
    × IsBytes (codes "foo")
    × (left < 8)
    × (rest < 2 ^ left)
    × (8 * length (codes "foo") + left ≡ 5 * length vs)
    × (number 5 0 vs ≡ number 8 0 (codes "foo") * 2 ^ left + rest)
base32_decode_sound_example = base32_decode_sound (codes "mZxW 6===") decodes_foo

code_of_one : hotp toy (codes "hello") 1 6 Digest.sha1 ≡ ok (codes "703189")
unfolding hotp counter_bytes truncate print_code modulus_loop pad_zeros to_string toy replicate
code_of_one = refl

hotp_sound_example :
    (6 ≤ 6)
    × (6 ≤ 10)
    × (mac : Bytes) × (toy.hmac Digest.sha1 (codes "hello") (counter_bytes 8 1 []) ≡ some mac)
    × (20 ≤ length mac)
    × IsCode (codes "703189") 6 (truncate mac % 10 ^ 6)
hotp_sound_example = hotp_sound toy (codes "hello") 1 6 Digest.sha1 code_of_one

totp_period_example :
    totp toy (codes "hello") 59 30 6 Digest.sha1 ≡ totp toy (codes "hello") 31 30 6 Digest.sha1
totp_period_example = totp_period toy (codes "hello") 59 31 30 6 Digest.sha1 refl
