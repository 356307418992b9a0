-- ===== src/Crypto/EncString/RoundTrip.antt =====
-- `EncString::serialize`, read back by `EncString::parse`.
use harbour_leyni.Prelude.{
  ℕ, ◌%◌, ◌≤◌, ◌≡◌, ap, refl, ◌∙◌, arith, List, [], ◌∷◌, ◌++◌, append_assoc, append-nil, Bytes,
  IsBytes, Lacks, codes, length, is_empty-of_length, ok,
}
use harbour_leyni.Prelude.Search.{find}
use harbour_leyni.Prelude.Decimal.{is_digit, stoi}
use harbour_leyni.Crypto.Base64
use harbour_leyni.Crypto.Base64.{decode_char}
use harbour_leyni.Crypto.Base64.Sound.{encode-Lacks}
use harbour_leyni.Crypto.Base64.RoundTrip.{decode-encode}
use harbour_leyni.Crypto.EncString.{
  EncString, split_parts, all_digits, parse_two, parse_parts, parse_two_parts, parse_at, parse,
  serialize,
}

pub split_parts-append :
    (sep : ℕ) (part xs rest : Bytes)
    → Lacks sep xs
    → split_parts sep part (xs ++ sep ∷ rest) ≡ (part ++ xs) ∷ split_parts sep [] rest
unfolding split_parts
split_parts-append sep part [] rest h = ground (arith, append-nil part)
split_parts-append sep part (c ∷ xs) rest h =
    ground
      (arith, split_parts-append sep (part ++ c ∷ []) xs rest h.1, append_assoc part (c ∷ []) xs)

pub split_parts_last :
    (sep : ℕ) (part xs : Bytes) → Lacks sep xs → split_parts sep part xs ≡ (part ++ xs) ∷ []
unfolding split_parts
split_parts_last sep part [] h = ground (arith, append-nil part)
split_parts_last sep part (c ∷ xs) h =
    ground (arith, split_parts_last sep (part ++ c ∷ []) xs h.1, append_assoc part (c ∷ []) xs)

-- What `parse` guarantees of a type 2 value, and what its round trip needs.
pub record IsTypeTwo (enc : EncString) : Type 0 where
  pub type_two : enc.type ≡ 2
  pub iv_size : length enc.iv ≡ 16
  pub mac_size : length enc.mac ≡ 32
  pub some_block : 1 ≤ length enc.ciphertext
  pub whole_blocks : length enc.ciphertext % 16 ≡ 0
  pub iv_bytes : IsBytes enc.iv
  pub ciphertext_bytes : IsBytes enc.ciphertext
  pub mac_bytes : IsBytes enc.mac

bar-bad : decode_char b'|' ≡ 255
unfolding decode_char
bar-bad = refl

encode-Lacks-bar : (xs : Bytes) → Lacks b'|' (Base64.encode xs)
encode-Lacks-bar = encode-Lacks b'|' bar-bad (omega arith)

split_three :
    (a b c : Bytes)
    → Lacks b'|' a
    → Lacks b'|' b
    → Lacks b'|' c
    → split_parts b'|' [] (a ++ b'|' ∷ (b ++ b'|' ∷ c)) ≡ a ∷ b ∷ c ∷ []
split_three a b c ha hb hc =
    split_parts-append b'|' [] a (b ++ b'|' ∷ c) ha
    ∙ ap (λ (r : List Bytes). a ∷ r) (split_parts-append b'|' [] b c hb)
    ∙ ap (λ (r : List Bytes). a ∷ b ∷ r) (split_parts_last b'|' [] c hc)

parse_two-encode :
    (enc : EncString)
    → IsTypeTwo enc
    → parse_two (Base64.encode enc.iv) (Base64.encode enc.ciphertext) (Base64.encode enc.mac)
      ≡ ok enc
unfolding parse_two
parse_two-encode enc v =
    rw
      (
        decode-encode enc.iv v.iv_bytes,
        decode-encode enc.ciphertext v.ciphertext_bytes,
        decode-encode enc.mac v.mac_bytes,
      )
      (ground (arith, is_empty-of_length enc.ciphertext v.some_block))

parse_at_two :
    (rest : Bytes) → parse_at 1 (codes "2." ++ rest) ≡ parse_two_parts (split_parts b'|' [] rest)
unfolding parse_at all_digits is_digit stoi parse_parts
parse_at_two rest = refl

parse_prefix : (rest : Bytes) → parse (codes "2." ++ rest) ≡ parse_at 1 (codes "2." ++ rest)
unfolding parse find
parse_prefix rest = refl

-- A well-formed type 2 value is serialized, and parsing the text gives the value back.
pub parse-serialize :
    (enc : EncString)
    → IsTypeTwo enc
    → (text : Bytes) × (serialize enc ≡ ok text) × (parse text ≡ ok enc)
unfolding serialize parse_parts parse_two_parts
parse-serialize enc v =
    let a = Base64.encode enc.iv in
    let b = Base64.encode enc.ciphertext in
    let c = Base64.encode enc.mac in
    let rest : Bytes = a ++ b'|' ∷ (b ++ b'|' ∷ c) in
    (
      codes "2." ++ rest,
      ground arith,
      parse_prefix rest
          ∙ parse_at_two rest
          ∙ ap parse_two_parts (
              split_three a b c (encode-Lacks-bar enc.iv) (encode-Lacks-bar enc.ciphertext)
                (encode-Lacks-bar enc.mac))
          ∙ parse_two-encode enc v,
    )
