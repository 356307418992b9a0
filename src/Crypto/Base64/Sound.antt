-- ===== src/Crypto/Base64/Sound.antt =====
-- What `base64Decode` accepts and returns, and which characters `base64Encode` writes.
use harbour_leyni.Prelude.{
  ℕ, ◌+◌, ◌-◌, ◌*◌, ◌/◌, ◌%◌, ◌^◌, ◌≤◌, ◌<◌, ◌≡◌, sym, subst, ◌≢◌, ◌⊎◌, ap, ◌∙◌, [], ◌∷◌, ◌++◌,
  arith, Bytes, IsBytes, IsByte, All-append, Lacks, length, length-append, ◌==◌, ok, >>=-eq-ok,
  if◌then◌else◌,
}
use harbour_leyni.Crypto.Base64.{
  encode_char, decode_char, sextet, encode, read_group, group_bytes, read_groups, padding, decode,
}
use harbour_leyni.Crypto.Base64.RoundTrip.{
  decode_char-encode_char, decode_groups, padding_le, padding_cons,
}

-- The characters `=` of a text.
count_pads : Bytes → ℕ
count_pads [] = 0
count_pads (c ∷ cs) = (if c == b'=' then 1 else 0) + count_pads cs

-- A group that is read has no padding before `limit`, and every other character is counted.
read_group_valid :
    (cs : Bytes) (limit at v n : ℕ) {r : ℕ × ℕ}
    → read_group limit at cs v n ≡ ok r
    → (r.1 + count_pads cs ≡ n + length cs) × ((count_pads cs ≡ 0) ⊎ (limit < at + length cs))
unfolding read_group count_pads
read_group_valid [] limit at v n h = ground arith
read_group_valid (c ∷ cs) limit at v n {r} h = ground (
  arith,
  read_group_valid cs limit (at + 1) (v * 64 % 2 ^ 32) n {r = r},
  read_group_valid cs limit (at + 1) (v * 64 % 2 ^ 32 + decode_char c) (n + 1) {r = r},
)

read_group_before :
    (c : ℕ) (cs : Bytes) (limit at v n : ℕ) {r : ℕ × ℕ}
    → read_group limit at (c ∷ cs) v n ≡ ok r
    → at < limit
    → (c ≢ b'=') × (read_group limit (at + 1) cs (v * 64 % 2 ^ 32 + decode_char c) (n + 1) ≡ ok r)
unfolding read_group
read_group_before c cs limit at v n h room = ground arith

-- A group of four holds its padding in the last two places, where it is counted.
read_group_count :
    (a b c d limit at : ℕ) {r : ℕ × ℕ}
    → read_group limit at (a ∷ b ∷ c ∷ d ∷ []) 0 0 ≡ ok r
    → at + 2 ≤ limit
    → (r.1 + padding (a ∷ b ∷ c ∷ d ∷ []) ≡ 4) × ((r.1 ≡ 4) ⊎ (limit < at + 4))
read_group_count a b c d limit at {r} h room =
    let first = read_group_before a (b ∷ c ∷ d ∷ []) limit at 0 0 {r = r} h (omega arith) in
    let second =
      read_group_before b (c ∷ d ∷ []) limit (at + 1) _ _ {r = r} first.1 (omega arith) in
    let all = read_group_valid (a ∷ b ∷ c ∷ d ∷ []) limit at 0 0 {r = r} h in
    unfold padding count_pads in ground (arith, first.0, second.0, all)

padding_le_two : (a b c d : ℕ) → padding (a ∷ b ∷ c ∷ d ∷ []) ≤ 2
padding_le_two a b c d = padding_le (a ∷ b ∷ c ∷ d ∷ [])

group_bytes-IsBytes : (v n : ℕ) → IsBytes (group_bytes v n)
unfolding group_bytes
group_bytes-IsBytes v n = ground arith

length-group_bytes : (v n : ℕ) → 2 ≤ n → n ≤ 4 → length (group_bytes v n) + 1 ≡ n
unfolding group_bytes
length-group_bytes v n h k = ground arith

-- The parts of a text that the outer loop accepts.
read_groups_parts :
    (a b c d : ℕ) (rest : Bytes) (limit at : ℕ) {out : Bytes}
    → read_groups limit at (a ∷ b ∷ c ∷ d ∷ rest) ≡ ok out
    → (r : ℕ × ℕ) × (tail : Bytes) × (read_group limit at (a ∷ b ∷ c ∷ d ∷ []) 0 0 ≡ ok r)
      × (read_groups limit (at + 4) rest ≡ ok tail)
      × (group_bytes r.0 r.1 ++ tail ≡ out)
unfolding read_groups
read_groups_parts a b c d rest limit at h =
    let (r, group, h') = >>=-eq-ok (read_group limit at (a ∷ b ∷ c ∷ d ∷ []) 0 0) _ h in
    let (tail, others, last) = >>=-eq-ok (read_groups limit (at + 4) rest) _ h' in
    (r, tail, group, others, cc)

-- The outer loop, from a whole number of groups.
read_groups_sound :
    (text : Bytes) (limit at : ℕ) {out : Bytes}
    → length text % 4 ≡ 0
    → limit + padding text ≡ at + length text
    → read_groups limit at text ≡ ok out
    → IsBytes out × (length out + padding text ≡ length text / 4 * 3)
read_groups_sound [] limit at full room h = unfold read_groups padding in ground arith
read_groups_sound (a ∷ []) limit at full room h = absurd (omega arith)
read_groups_sound (a ∷ b ∷ []) limit at full room h = absurd (omega arith)
read_groups_sound (a ∷ b ∷ c ∷ []) limit at full room h = absurd (omega arith)
read_groups_sound (a ∷ b ∷ c ∷ d ∷ []) limit at {out} full room h =
    let (r, tail, group, others, last) = read_groups_parts a b c d [] limit at h in
    let none_left : tail ≡ [] = unfold read_groups in cc others in
    let few : padding (a ∷ b ∷ c ∷ d ∷ []) ≤ 2 = padding_le (a ∷ b ∷ c ∷ d ∷ []) in
    let count = read_group_count a b c d limit at {r = r} group (omega arith) in
    subst (λ (o : Bytes). IsBytes o × (length o + padding (a ∷ b ∷ c ∷ d ∷ []) ≡ 3)) last
      (
        All-append IsByte _ tail (group_bytes-IsBytes r.0 r.1) (rw none_left tt),
        omega (
          arith,
          length-append (group_bytes r.0 r.1) tail,
          ap length none_left,
          length-group_bytes r.0 r.1 (omega arith) (omega arith),
        ),
      )
read_groups_sound (a ∷ b ∷ c ∷ d ∷ e ∷ rest) limit at {out} full room h =
    let (r, tail, group, others, last) = read_groups_parts a b c d (e ∷ rest) limit at h in
    let same : padding (a ∷ b ∷ c ∷ d ∷ e ∷ rest) ≡ padding (e ∷ rest) =
      padding_cons a b c d e rest (omega arith) in
    let few : padding (e ∷ rest) ≤ 2 = padding_le (e ∷ rest) in
    let count = read_group_count a b c d limit at {r = r} group (omega arith) in
    let ih = read_groups_sound (e ∷ rest) limit (at + 4) (omega arith) (omega arith) others in
    let four : r.1 ≡ 4 = ground (arith, count.1) in
    subst
      (λ (o : Bytes).
        IsBytes o
        × (length o + padding (a ∷ b ∷ c ∷ d ∷ e ∷ rest)
            ≡ length (a ∷ b ∷ c ∷ d ∷ e ∷ rest) / 4 * 3))
      last
      (
        All-append IsByte _ tail (group_bytes-IsBytes r.0 r.1) ih.0,
        omega (
          arith,
          length-append (group_bytes r.0 r.1) tail,
          ih.1,
          length-group_bytes r.0 r.1 (omega arith) (omega arith),
        ),
      )

-- An accepted text consists of full groups of four, and decodes to three bytes for each group,
-- less one for each padding character counted.
pub decode_sound :
    (text : Bytes) {out : Bytes}
    → decode text ≡ ok out
    → (length text % 4 ≡ 0) × IsBytes out × (length out + padding text ≡ length text / 4 * 3)
decode_sound [] h = unfold decode padding in ground arith
decode_sound (c ∷ cs) {out} h =
    let full : length (c ∷ cs) % 4 ≡ 0 = unfold decode in ground arith in
    let read =
      read_groups_sound (c ∷ cs) (length (c ∷ cs) - padding (c ∷ cs)) 0 {out = out} full
        (omega (arith, padding_le (c ∷ cs)))
        (sym (decode_groups (c ∷ cs) full (omega arith)) ∙ h) in
    (full, read.0, read.1)

encode_char-ne : (c i : ℕ) → decode_char c ≡ 255 → i < 64 → encode_char i ≢ c
encode_char-ne c i bad h e =
    let same : decode_char c ≡ i = ap decode_char (sym e) ∙ decode_char-encode_char i h in
    omega arith

module _ (c : ℕ) (bad : decode_char c ≡ 255) (ne : c ≢ b'=') where
  sextet-ne : (v k : ℕ) → sextet v k ≢ c
  unfolding sextet
  sextet-ne v k = encode_char-ne c (v / 2 ^ k % 64) bad (omega arith)

  pad-ne : b'=' ≢ c
  pad-ne e = ne (sym e)

  -- No separator that is outside the base64 alphabet occurs in an encoded text.
  pub encode-Lacks : (xs : Bytes) → Lacks c (encode xs)
  unfolding encode
  encode-Lacks [] = tt
  encode-Lacks (a ∷ []) = (sextet-ne _ 18, (sextet-ne _ 12, (pad-ne, (pad-ne, tt))))
  encode-Lacks (a ∷ b ∷ []) = (sextet-ne _ 18, (sextet-ne _ 12, (sextet-ne _ 6, (pad-ne, tt))))
  encode-Lacks (a ∷ b ∷ d ∷ rest) =
      (sextet-ne _ 18, (sextet-ne _ 12, (sextet-ne _ 6, (sextet-ne _ 0, encode-Lacks rest))))
