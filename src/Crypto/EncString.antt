-- ===== src/Crypto/EncString.antt =====
-- src/crypto/encstring.{h,cpp}: the text form "<type>.<base64>|<base64>|<base64>".
pub mod RoundTrip
pub mod Sound
use harbour_leyni.Prelude.{
  ℕ, ◌+◌, ◌-◌, ◌*◌, ◌%◌, Bool, true, false, ◌&&◌, ◌||◌, not, List, [], ◌∷◌, ◌++◌, Option, none,
  some, Bytes, codes, length, is_empty, take, drop, ltb, leb, ◌==◌, if◌then◌else◌, CryptoError,
  numbered, Result, ok, err, throw, throw_if, ◌>>=◌, ◌>>◌,
}
use harbour_leyni.Prelude.Search.{find}
use harbour_leyni.Prelude.Decimal.{is_digit, stoi}
use harbour_leyni.Crypto.Base64

-- The fields that a part list does not fill stay empty.
pub record EncString : Type 0 where
  pub type : ℕ
  pub iv : Bytes
  pub ciphertext : Bytes
  pub mac : Bytes

-- `part` is what stands between `start` and the character that is read.
unfoldable pub split_parts : ℕ → Bytes → Bytes → List Bytes
split_parts sep part [] = part ∷ []
split_parts sep part (c ∷ cs) = elim (c == sep) [
  | true ↦ part ∷ split_parts sep [] cs
  | false ↦ split_parts sep (part ++ c ∷ []) cs
]

unfoldable pub all_digits : Bytes → Bool
all_digits [] = true
all_digits (c ∷ cs) = is_digit c && all_digits cs

unfoldable pub parse_two : Bytes → Bytes → Bytes → Result EncString
parse_two first second third = do
  iv ← Base64.decode first
  ciphertext ← Base64.decode second
  mac ← Base64.decode third
  throw_if (not (length iv == 16)) "EncString: type 2 iv must be 16 bytes"
  throw_if (not (length mac == 32)) "EncString: type 2 mac must be 32 bytes"
  throw_if (is_empty ciphertext || not (length ciphertext % 16 == 0))
      "EncString: type 2 ciphertext must be a non-empty multiple of the AES block size"
  ok (record { type = 2; iv = iv; ciphertext = ciphertext; mac = mac })

unfoldable pub parse_four : Bytes → Result EncString
parse_four part = do
  ciphertext ← Base64.decode part
  throw_if (is_empty ciphertext) "EncString: type 4 empty ciphertext"
  ok (record { type = 4; iv = []; ciphertext = ciphertext; mac = [] })

unfoldable pub parse_two_parts : List Bytes → Result EncString
parse_two_parts (first ∷ second ∷ third ∷ []) = parse_two first second third
parse_two_parts _ = throw "EncString: type 2 requires iv|ciphertext|mac"

unfoldable pub parse_four_parts : List Bytes → Result EncString
parse_four_parts (part ∷ []) = parse_four part
parse_four_parts _ = throw "EncString: type 4 requires a single part"

-- The `switch` on the type.
unfoldable pub parse_parts : ℕ → List Bytes → Result EncString
parse_parts type parts =
    if type == 2
    then parse_two_parts parts
    else if type == 4
    then parse_four_parts parts
    else err (numbered "EncString: unsupported type " type)

unfoldable pub parse_at : ℕ → Bytes → Result EncString
parse_at dot text = do
  throw_if (dot == 0) "EncString: missing type prefix"
  let type_part = take dot text
  throw_if (not (all_digits type_part)) "EncString: non-numeric type"
  throw_if (ltb 2 (length type_part)) "EncString: type out of range"
  parse_parts (stoi 0 type_part) (split_parts b'|' [] (drop (dot + 1) text))

unfoldable pub parse : Bytes → Result EncString
parse text = elim (find b'.' text) [
  | none ↦ throw "EncString: missing type prefix"
  | some dot ↦ parse_at dot text
]

unfoldable pub serialize : EncString → Result Bytes
serialize enc = do
  throw_if (not (enc.type == 2)) "EncString::serialize: only type 2 is supported"
  ok (
      codes "2."
      ++ (Base64.encode enc.iv
          ++ b'|' ∷ (Base64.encode enc.ciphertext ++ b'|' ∷ Base64.encode enc.mac)))
