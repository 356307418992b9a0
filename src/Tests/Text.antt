-- ===== src/Tests/Text.antt =====
-- Base64, EncString and PIN blobs.
use harbour_leyni.Prelude.{
  ℕ, ◌+◌, ◌*◌, ◌%◌, ◌/◌, ◌≡◌, ◌↔◌, ◌⊎◌, refl, arith, true, [], Bytes, IsBytes, codes, length, ok,
  err, throw, numbered,
}
use harbour_leyni.Crypto.Base64
use harbour_leyni.Crypto.Base64.{
  alphabet, encode_char, decode_char, read_group, group_bytes, read_groups, padding,
}
use harbour_leyni.Crypto.Base64.RoundTrip as B
use harbour_leyni.Crypto.Base64.Sound.{decode_sound}
use harbour_leyni.Prelude.Search.{find}
use harbour_leyni.Prelude.Decimal.{is_digit, stoi}
use harbour_leyni.Crypto.SecureBytes.{
  secure_equal, secure_equal_iff, constant_time_equal, constant_time_equal_iff,
}
use harbour_leyni.Crypto.EncString
use harbour_leyni.Crypto.EncString.{EncString}
use harbour_leyni.Crypto.EncString.RoundTrip.{IsTypeTwo, parse-serialize}
use harbour_leyni.Crypto.EncString.Sound.{IsTypeFour, parse_sound}
use harbour_leyni.Tests.Toy.{replicate}

abbrev hello : Bytes
hello = codes "hello"

abbrev hello_text : Bytes
hello_text = codes "aGVsbG8="

encodes : Base64.encode hello ≡ hello_text
unfolding Base64.encode encode_char
encodes = refl

decodes : Base64.decode hello_text ≡ ok hello
unfolding Base64.decode padding read_groups read_group group_bytes decode_char
decodes = refl

bad_padding : Base64.decode (codes "AB=C") ≡ throw "base64Decode: unexpected padding"
unfolding Base64.decode padding read_groups read_group group_bytes decode_char
bad_padding = refl

decode-encode_example : Base64.decode (Base64.encode hello) ≡ ok hello
decode-encode_example = B.decode-encode hello (omega arith)

decode_sound_example :
    (length hello_text % 4 ≡ 0)
    × IsBytes hello
    × (length hello + padding hello_text ≡ length hello_text / 4 * 3)
decode_sound_example = decode_sound hello_text decodes

-- A type 2 value of the toy cipher.
abbrev zeros : ℕ → Bytes
zeros n = replicate n 0

abbrev sample : EncString
sample = record { type = 2; iv = replicate 16 1; ciphertext = replicate 32 2; mac = replicate 32 3 }

sample-IsTypeTwo : IsTypeTwo sample
unfolding replicate
sample-IsTypeTwo = record {
  type_two = refl;
  iv_size = refl;
  mac_size = refl;
  some_block = omega arith;
  whole_blocks = refl;
  iv_bytes = omega arith;
  ciphertext_bytes = omega arith;
  mac_bytes = omega arith;
}

parse-serialize_example :
    (text : Bytes) × (EncString.serialize sample ≡ ok text) × (EncString.parse text ≡ ok sample)
parse-serialize_example = parse-serialize sample sample-IsTypeTwo

wrapped_key : EncString
wrapped_key = record { type = 4; iv = []; ciphertext = hello; mac = [] }

abbrev wrapped_text : Bytes
wrapped_text = codes "4.aGVsbG8="

parses_four : EncString.parse wrapped_text ≡ ok wrapped_key
unfolding wrapped_key EncString.parse EncString.parse_at EncString.all_digits EncString.parse_parts
    EncString.parse_four_parts EncString.parse_four EncString.split_parts find is_digit stoi
    Base64.decode padding read_groups read_group group_bytes decode_char
parses_four = refl

unsupported : EncString.parse (codes "3.aGVsbG8=") ≡ err (numbered "EncString: unsupported type " 3)
unfolding EncString.parse EncString.parse_at EncString.all_digits EncString.parse_parts
    EncString.split_parts find is_digit stoi
unsupported = refl

parse_sound_example : IsTypeTwo wrapped_key ⊎ IsTypeFour wrapped_key
parse_sound_example = parse_sound wrapped_text parses_four

secure_equal_iff_example : (secure_equal hello hello_text ≡ true) ↔ (hello ≡ hello_text)
secure_equal_iff_example = secure_equal_iff hello hello_text

constant_time_equal_iff_example : (constant_time_equal hello hello 5 ≡ true) ↔ (hello ≡ hello)
constant_time_equal_iff_example = constant_time_equal_iff hello hello (omega arith) refl
