-- ===== src/Crypto/Base64.antt =====
-- src/crypto/base64.cpp: standard base64 with padding. A loop over the text is a recursion on it;
-- `|` of disjoint bit fields is a sum, and `uint32_t` wraps.
pub mod RoundTrip
pub mod Sound
use harbour_leyni.Prelude.{
  ℕ, ◌+◌, ◌-◌, ◌*◌, ◌/◌, ◌%◌, ◌^◌, Bool, ◌&&◌, List, [], ◌∷◌, ◌++◌, Bytes, codes, length, get_or,
  ltb, leb, ◌==◌, if◌then◌else◌, Result, ok, throw, throw_if, ◌>>=◌, ◌>>◌, not, is_empty,
}

abbrev pub alphabet : Bytes
alphabet = codes "ABCDEFGHIJKLMNOPQRSTUVWXYZabcdefghijklmnopqrstuvwxyz0123456789+/"

-- `255` marks characters outside the alphabet.
unfoldable pub decode_char : ℕ → ℕ
decode_char c =
    if leb b'A' c && leb c b'Z'
    then c - b'A'
    else if leb b'a' c && leb c b'z'
    then c - b'a' + 26
    else if leb b'0' c && leb c b'9'
    then c - b'0' + 52
    else if c == b'+'
    then 62
    else if c == b'/'
    then 63
    else 255

-- `kAlphabet[i]`
unfoldable pub encode_char : ℕ → ℕ
encode_char i = get_or alphabet i 0

-- `kAlphabet[(v >> k) & 63]`
unfoldable pub sextet : ℕ → ℕ → ℕ
sextet v k = encode_char (v / 2 ^ k % 64)

unfoldable pub encode : Bytes → Bytes
unfolding sextet
encode [] = []
encode (a ∷ []) = let v = a * 65536 in sextet v 18 ∷ sextet v 12 ∷ b'=' ∷ b'=' ∷ []
encode (a ∷ b ∷ []) =
    let v = a * 65536 + b * 256 in sextet v 18 ∷ sextet v 12 ∷ sextet v 6 ∷ b'=' ∷ []
encode (a ∷ b ∷ c ∷ rest) =
    let v = a * 65536 + b * 256 + c in
    sextet v 18 ∷ sextet v 12 ∷ sextet v 6 ∷ sextet v 0 ∷ encode rest

-- The inner loop over `j`: `at` is `i + j`, `limit` is `text.size() - padding`, and the result is
-- the pair of `v` and `validChars`.
unfoldable pub read_group : ℕ → ℕ → Bytes → ℕ → ℕ → Result (ℕ × ℕ)
read_group limit at [] v valid = ok (v, valid)
read_group limit at (c ∷ cs) v valid =
    let shifted = v * 64 % 2 ^ 32 in
    let skip = read_group limit (at + 1) cs shifted valid in
    let next = read_group limit (at + 1) cs (shifted + decode_char c) (valid + 1) in
    if c == b'='
    then (if ltb at limit then throw "base64Decode: unexpected padding" else skip)
    else if decode_char c == 255
    then throw "base64Decode: invalid character"
    else next

-- What one round of the outer loop appends.
unfoldable pub group_bytes : ℕ → ℕ → Bytes
group_bytes v valid =
    (v / 2 ^ 16 % 256)
    ∷ ((if leb 3 valid then (v / 2 ^ 8 % 256) ∷ [] else [])
        ++ (if valid == 4 then (v % 256) ∷ [] else []))

-- The outer loop. The length of the text is a multiple of four.
unfoldable pub read_groups : ℕ → ℕ → Bytes → Result Bytes
read_groups limit at (a ∷ b ∷ c ∷ d ∷ rest) = do
  (v, valid) ← read_group limit at (a ∷ b ∷ c ∷ d ∷ []) 0 0
  out ← read_groups limit (at + 4) rest
  ok (group_bytes v valid ++ out)
read_groups limit at _ = ok []

-- `=` in the last two places is counted.
unfoldable pub padding : Bytes → ℕ
padding text =
    (if get_or text (length text - 1) 0 == b'=' then 1 else 0)
    + (if get_or text (length text - 2) 0 == b'=' then 1 else 0)

unfoldable pub decode : Bytes → Result Bytes
decode text = do
  throw_if (not (length text % 4 == 0)) "base64Decode: length not a multiple of 4"
  if is_empty text then ok [] else read_groups (length text - padding text) 0 text
