-- ===== src/Crypto/EncString/Sound.antt =====
-- What `EncString::parse` accepts.
use harbour_leyni.Prelude.{
  ℕ, ◌+◌, ◌≤◌, ◌≡◌, ◌⊎◌, inl, inr, arith, not, List, [], ◌∷◌, Bytes, IsBytes, length, take, drop,
  ltb, length-of_is_empty, ◌==◌, ok, Option-cases, >>=-eq-ok, throw_if-eq-ok, Bool-cases,
}
use harbour_leyni.Prelude.Search.{find}
use harbour_leyni.Prelude.Decimal.{stoi}
use harbour_leyni.Crypto.Base64
use harbour_leyni.Crypto.Base64.Sound.{decode_sound}
use harbour_leyni.Crypto.EncString.{
  EncString, split_parts, all_digits, parse_two, parse_four, parse_parts, parse_two_parts,
  parse_four_parts, parse_at, parse,
}
use harbour_leyni.Crypto.EncString.RoundTrip.{IsTypeTwo}

pub record IsTypeFour (enc : EncString) : Type 0 where
  pub type_four : enc.type ≡ 4
  pub no_iv : enc.iv ≡ []
  pub no_mac : enc.mac ≡ []
  pub not_empty : 1 ≤ length enc.ciphertext
  pub ciphertext_bytes : IsBytes enc.ciphertext

parse_two_sound : (a b c : Bytes) {enc : EncString} → parse_two a b c ≡ ok enc → IsTypeTwo enc
unfolding parse_two
parse_two_sound a b c h =
    let (iv, hiv, h1) = >>=-eq-ok (Base64.decode a) _ h in
    let (ct, hct, h2) = >>=-eq-ok (Base64.decode b) _ h1 in
    let (mac, hmac, h3) = >>=-eq-ok (Base64.decode c) _ h2 in
    let siv = decode_sound a hiv in
    let sct = decode_sound b hct in
    let smac = decode_sound c hmac in ground (arith, siv.1, sct.1, smac.1, length-of_is_empty ct)

parse_four_sound : (a : Bytes) {enc : EncString} → parse_four a ≡ ok enc → IsTypeFour enc
unfolding parse_four
parse_four_sound a h =
    let (ct, hct, h1) = >>=-eq-ok (Base64.decode a) _ h in
    let sct = decode_sound a hct in ground (arith, sct.1, length-of_is_empty ct)

parse_two_parts_sound :
    (parts : List Bytes) {enc : EncString} → parse_two_parts parts ≡ ok enc → IsTypeTwo enc
unfolding parse_two_parts
parse_two_parts_sound (a ∷ b ∷ c ∷ []) h = parse_two_sound a b c h
parse_two_parts_sound _ h = cc

parse_four_parts_sound :
    (parts : List Bytes) {enc : EncString} → parse_four_parts parts ≡ ok enc → IsTypeFour enc
unfolding parse_four_parts
parse_four_parts_sound (a ∷ []) h = parse_four_sound a h
parse_four_parts_sound _ h = cc

parse_parts_sound :
    (type : ℕ) (parts : List Bytes) {enc : EncString}
    → parse_parts type parts ≡ ok enc
    → IsTypeTwo enc ⊎ IsTypeFour enc
unfolding parse_parts
parse_parts_sound type parts h = elim (Bool-cases (type == 2)) [
  | inl two ↦ inl (parse_two_parts_sound parts (ground arith))
  | inr other ↦ elim (Bool-cases (type == 4)) [
    | inl four ↦ inr (parse_four_parts_sound parts (ground arith))
    | inr unknown ↦ absurd (ground arith)
  ]
]

parse_at_sound :
    (dot : ℕ) (text : Bytes) {enc : EncString}
    → parse_at dot text ≡ ok enc
    → IsTypeTwo enc ⊎ IsTypeFour enc
unfolding parse_at
parse_at_sound dot text {enc} h =
    let type_part = take dot text in
    let h1 = (throw_if-eq-ok (dot == 0) _ _ h).1 in
    let h2 = (throw_if-eq-ok (not (all_digits type_part)) _ _ h1).1 in
    let h3 = (throw_if-eq-ok (ltb 2 (length type_part)) _ _ h2).1 in
    parse_parts_sound (stoi 0 type_part) (split_parts b'|' [] (drop (dot + 1) text)) h3

-- Whatever text is accepted, the value is a type 2 value with a 16-byte iv, a 32-byte mac and one or
-- more whole blocks, or a type 4 value with a non-empty ciphertext; no other type is ever returned.
pub parse_sound :
    (text : Bytes) {enc : EncString} → parse text ≡ ok enc → IsTypeTwo enc ⊎ IsTypeFour enc
unfolding parse
parse_sound text h = elim (Option-cases (find b'.' text)) [
  | inl missing ↦ absurd (ground arith)
  | inr (dot, found) ↦ parse_at_sound dot text (ground arith)
]

pub parse-IsTypeTwo :
    (text : Bytes) {enc : EncString} → parse text ≡ ok enc → enc.type ≡ 2 → IsTypeTwo enc
parse-IsTypeTwo text h e = elim (parse_sound text h) [
  | inl two ↦ two
  | inr four ↦ absurd (omega (arith, four.type_four))
]
