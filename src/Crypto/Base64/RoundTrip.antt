-- ===== src/Crypto/Base64/RoundTrip.antt =====
-- Decoding what `base64Encode` wrote.
use harbour_leyni.Prelude.{
  ℕ, suc, ◌+◌, ◌-◌, ◌*◌, ◌/◌, ◌%◌, ◌^◌, ◌≤◌, ◌<◌, ◌≡◌, refl, ◌≢◌, ◌∙◌, true, not, [], ◌∷◌, arith,
  Bytes, IsBytes, length, get_or, ==_iff, ◌==◌, holds_below, holds_below_sound, ok,
}
use harbour_leyni.Crypto.Base64.{
  encode_char, decode_char, sextet, encode, read_group, group_bytes, read_groups, padding, decode,
}

decode_char_table : holds_below 64 (λ i. decode_char (encode_char i) == i) ≡ true
unfolding holds_below decode_char encode_char
decode_char_table = refl

encode_char_table : holds_below 64 (λ i. not (encode_char i == b'=')) ≡ true
unfolding holds_below encode_char
encode_char_table = refl

pub decode_char-encode_char : (i : ℕ) → i < 64 → decode_char (encode_char i) ≡ i
decode_char-encode_char i h =
    (==_iff (decode_char (encode_char i)) i).0 (holds_below_sound 64 _ i decode_char_table h)

pub encode_char-ne-pad : (i : ℕ) → i < 64 → encode_char i ≢ b'='
encode_char-ne-pad i h =
    let e : not (encode_char i == b'=') ≡ true = holds_below_sound 64 _ i encode_char_table h in
    ground arith

-- One round of the inner loop, the tests left shut.
read_group_step :
    (limit at c v valid i : ℕ) (cs : Bytes)
    → c ≢ b'='
    → decode_char c ≡ i
    → i < 64
    → read_group limit at (c ∷ cs) v valid
      ≡ read_group limit (at + 1) cs (v * 64 % 2 ^ 32 + i) (valid + 1)
read_group_step limit at c v valid i cs h e lt = unfold read_group in ground arith

-- One round of the inner loop on a character of the alphabet.
read_char :
    (limit at i v valid : ℕ) (cs : Bytes)
    → i < 64
    → read_group limit at (encode_char i ∷ cs) v valid
      ≡ read_group limit (at + 1) cs (v * 64 % 2 ^ 32 + i) (valid + 1)
read_char limit at i v valid cs h =
    read_group_step limit at (encode_char i) v valid i cs (encode_char-ne-pad i h)
      (decode_char-encode_char i h) h

-- One round of the inner loop on a padding character in its place.
read_pad :
    (limit at v valid : ℕ) (cs : Bytes)
    → limit ≤ at
    → read_group limit at (b'=' ∷ cs) v valid ≡ read_group limit (at + 1) cs (v * 64 % 2 ^ 32) valid
unfolding read_group
read_pad limit at v valid cs h = ground arith

read_four :
    (limit at i j k l : ℕ)
    → i < 64
    → j < 64
    → k < 64
    → l < 64
    → read_group limit at (encode_char i ∷ encode_char j ∷ encode_char k ∷ encode_char l ∷ []) 0 0
      ≡ ok (((i * 64 + j) * 64 + k) * 64 + l, 4)
read_four limit at i j k l hi hj hk hl =
    read_char limit at i 0 0 _ hi
    ∙ read_char limit (at + 1) j _ _ _ hj
    ∙ read_char limit (at + 1 + 1) k _ _ _ hk
    ∙ read_char limit (at + 1 + 1 + 1) l _ _ _ hl
    ∙ unfold read_group in ground arith

read_three :
    (limit at i j k : ℕ)
    → i < 64
    → j < 64
    → k < 64
    → limit ≤ at + 3
    → read_group limit at (encode_char i ∷ encode_char j ∷ encode_char k ∷ b'=' ∷ []) 0 0
      ≡ ok (((i * 64 + j) * 64 + k) * 64, 3)
read_three limit at i j k hi hj hk room =
    read_char limit at i 0 0 _ hi
    ∙ read_char limit (at + 1) j _ _ _ hj
    ∙ read_char limit (at + 1 + 1) k _ _ _ hk
    ∙ read_pad limit (at + 1 + 1 + 1) _ _ _ (omega arith)
    ∙ unfold read_group in ground arith

read_two :
    (limit at i j : ℕ)
    → i < 64
    → j < 64
    → limit ≤ at + 2
    → read_group limit at (encode_char i ∷ encode_char j ∷ b'=' ∷ b'=' ∷ []) 0 0
      ≡ ok ((i * 64 + j) * 64 * 64, 2)
read_two limit at i j hi hj room =
    read_char limit at i 0 0 _ hi
    ∙ read_char limit (at + 1) j _ _ _ hj
    ∙ read_pad limit (at + 1 + 1) _ _ _ (omega arith)
    ∙ read_pad limit (at + 1 + 1 + 1) _ _ _ (omega arith)
    ∙ unfold read_group in ground arith

-- The padding characters that `base64Encode` writes.
pub pads : Bytes → ℕ
pads [] = 0
pads (a ∷ []) = 2
pads (a ∷ b ∷ []) = 1
pads (a ∷ b ∷ c ∷ rest) = pads rest

read_groups-encode :
    (xs : Bytes) (limit at : ℕ)
    → IsBytes xs
    → limit + pads xs ≡ at + length (encode xs)
    → read_groups limit at (encode xs) ≡ ok xs
unfolding encode sextet read_groups pads group_bytes
read_groups-encode [] limit at h e = refl
read_groups-encode (a ∷ []) limit at h e =
    rw
      (read_two limit at (a * 65536 / 2 ^ 18 % 64) (a * 65536 / 2 ^ 12 % 64) (omega arith)
        (omega arith) (omega arith))
      (ground arith)
read_groups-encode (a ∷ b ∷ []) limit at h e =
    let v : ℕ = a * 65536 + b * 256 in
    rw
      (read_three limit at (v / 2 ^ 18 % 64) (v / 2 ^ 12 % 64) (v / 2 ^ 6 % 64) (omega arith)
        (omega arith) (omega arith) (omega arith))
      (ground arith)
read_groups-encode (a ∷ b ∷ c ∷ rest) limit at h e =
    let v : ℕ = a * 65536 + b * 256 + c in
    rw
      (
        read_four limit at (v / 2 ^ 18 % 64) (v / 2 ^ 12 % 64) (v / 2 ^ 6 % 64) (v / 2 ^ 0 % 64)
            (omega arith) (omega arith) (omega arith) (omega arith),
        read_groups-encode rest limit (at + 4) h.1.1.1 (omega arith),
      )
      (ground arith)

pub length-encode : (xs : Bytes) → length (encode xs) ≡ (length xs + 2) / 3 * 4
unfolding encode
length-encode [] = refl
length-encode (a ∷ []) = refl
length-encode (a ∷ b ∷ []) = refl
length-encode (a ∷ b ∷ c ∷ rest) = omega (arith, length-encode rest)

get_or_fifth :
    (a b c d : ℕ) (xs : Bytes) (n m : ℕ)
    → n ≡ suc (suc (suc (suc m)))
    → get_or (a ∷ b ∷ c ∷ d ∷ xs) n 0 ≡ get_or xs m 0
get_or_fifth a b c d xs n m e = rw e refl

-- The last two places of a text that goes on are those of the rest.
pub padding_cons :
    (a b c d e : ℕ) (rest : Bytes)
    → 1 ≤ length rest
    → padding (a ∷ b ∷ c ∷ d ∷ e ∷ rest) ≡ padding (e ∷ rest)
unfolding padding
padding_cons a b c d e [] h = absurd (omega arith)
padding_cons a b c d e (f ∷ rest) h =
    let n : ℕ = length (e ∷ f ∷ rest) in
    let m : ℕ = length (a ∷ b ∷ c ∷ d ∷ e ∷ f ∷ rest) in
    rw (
      get_or_fifth a b c d (e ∷ f ∷ rest) (m - 1) (n - 1) (omega arith),
      get_or_fifth a b c d (e ∷ f ∷ rest) (m - 2) (n - 2) (omega arith),
    )

padding-encode_more :
    (a b c : ℕ) (rest : Bytes)
    → 1 ≤ length rest
    → padding (encode (a ∷ b ∷ c ∷ rest)) ≡ padding (encode rest)
unfolding encode
padding-encode_more a b c [] h = absurd (omega arith)
padding-encode_more a b c (d ∷ []) h = padding_cons _ _ _ _ _ _ (omega arith)
padding-encode_more a b c (d ∷ e ∷ []) h = padding_cons _ _ _ _ _ _ (omega arith)
padding-encode_more a b c (d ∷ e ∷ f ∷ rest) h = padding_cons _ _ _ _ _ _ (omega arith)

-- The padding that `base64Decode` counts is what `base64Encode` wrote.
padding-encode : (xs : Bytes) → 1 ≤ length xs → IsBytes xs → padding (encode xs) ≡ pads xs
unfolding pads
padding-encode [] h v = absurd (omega arith)
padding-encode (a ∷ []) h v = unfold encode padding in refl
padding-encode (a ∷ b ∷ []) h v =
    unfold encode padding sextet in
    ground (arith, encode_char-ne-pad ((a * 65536 + b * 256) / 2 ^ 6 % 64) (omega arith))
padding-encode (a ∷ b ∷ c ∷ []) h v =
    unfold encode padding sextet in
    ground (
      arith,
      encode_char-ne-pad ((a * 65536 + b * 256 + c) / 2 ^ 6 % 64) (omega arith),
      encode_char-ne-pad ((a * 65536 + b * 256 + c) / 2 ^ 0 % 64) (omega arith),
    )
padding-encode (a ∷ b ∷ c ∷ d ∷ rest) h v =
    padding-encode_more a b c (d ∷ rest) (omega arith)
    ∙ padding-encode (d ∷ rest) (omega arith) v.1.1.1

pub padding_le : (text : Bytes) → padding text ≤ 2
unfolding padding
padding_le text = ground arith

-- A text of full groups goes to the outer loop.
pub decode_groups :
    (text : Bytes)
    → length text % 4 ≡ 0
    → 1 ≤ length text
    → decode text ≡ read_groups (length text - padding text) 0 text
unfolding decode
decode_groups [] full some_text = absurd (omega arith)
decode_groups (c ∷ cs) full some_text = ground arith

-- Every byte string is read back from its base64 text.
pub decode-encode : (xs : Bytes) → IsBytes xs → decode (encode xs) ≡ ok xs
decode-encode [] v = unfold decode encode in refl
decode-encode (a ∷ rest) v =
    let text : Bytes = encode (a ∷ rest) in
    let counted : length text ≡ (length (a ∷ rest) + 2) / 3 * 4 = length-encode (a ∷ rest) in
    let e : padding text ≡ pads (a ∷ rest) = padding-encode (a ∷ rest) (omega arith) v in
    decode_groups text (omega arith) (omega arith)
    ∙ read_groups-encode (a ∷ rest) (length text - padding text) 0 v
        (omega (arith, padding_le text))
