-- ===== src/Crypto/Totp/Code.antt =====
-- The shape and the value of a code.
use harbour_leyni.Prelude.{
  ℕ, zero, suc, ◌+◌, ◌-◌, ◌/◌, ◌%◌, ◌^◌, ◌≤◌, ◌<◌, ◌≡◌, refl, subst, true, holds_below,
  holds_below_sound, ==_iff, leb, ◌&&◌, ◌∙◌, arith, ◌||◌, ltb, ◌==◌, [], ◌∷◌, some, Bytes, IsBytes,
  IsByte, All, length, is_empty, get_or, ok, or_throw, >>=-eq-ok, throw_if-eq-ok,
}
use harbour_leyni.Prelude.Decimal.{
  IsDigit, stoi, to_string, stoi-to_string, to_string-digits, length-to_string,
}
use harbour_leyni.Crypto.Primitives.{Primitives}
use harbour_leyni.Crypto.Totp.{
  TotpAlgorithm, counter_bytes, truncate, modulus_loop, pad_zeros, print_code, hotp, totp,
}

pad_zeros-digits :
    (fuel width : ℕ) (s : Bytes) → All IsDigit s → All IsDigit (pad_zeros fuel width s)
unfolding pad_zeros
pad_zeros-digits zero width s d = d
pad_zeros-digits (suc fuel) width s d =
    ground (arith, pad_zeros-digits fuel width (b'0' ∷ s) (omega arith, d))

stoi-zero : (s : Bytes) → stoi 0 (b'0' ∷ s) ≡ stoi 0 s
unfolding stoi
stoi-zero s = refl

stoi-pad_zeros : (fuel width : ℕ) (s : Bytes) → stoi 0 (pad_zeros fuel width s) ≡ stoi 0 s
unfolding pad_zeros
stoi-pad_zeros zero width s = refl
stoi-pad_zeros (suc fuel) width s =
    ground (arith, stoi-zero s, stoi-pad_zeros fuel width (b'0' ∷ s))

length-pad_zeros :
    (fuel width : ℕ) (s : Bytes)
    → length s ≤ width
    → width ≤ length s + fuel
    → length (pad_zeros fuel width s) ≡ width
unfolding pad_zeros
length-pad_zeros zero width s h k = omega arith
length-pad_zeros (suc fuel) width s h k = ground (arith, length-pad_zeros fuel width (b'0' ∷ s))

-- The digits of a code: how many, which, and the number that they spell.
pub record IsCode (code : Bytes) (digits value : ℕ) : Type 0 where
  pub size : length code ≡ digits
  pub decimal : All IsDigit code
  pub spells : stoi 0 code ≡ value

modulus_table : holds_below 11 (λ d. modulus_loop d 1 == 10 ^ d) ≡ true
unfolding holds_below modulus_loop
modulus_table = refl

-- `uint64_t` holds the modulus of ten digits.
modulus_loop-pow : (d : ℕ) → d ≤ 10 → modulus_loop d 1 ≡ 10 ^ d
modulus_loop-pow d h =
    (==_iff (modulus_loop d 1) (10 ^ d)).0 (holds_below_sound 11 _ d modulus_table (omega arith))

power_table : holds_below 11 (λ d. leb (10 ^ d) (10 ^ 10) && leb 1 (10 ^ d)) ≡ true
unfolding holds_below
power_table = refl

power_bounds : (d : ℕ) → d ≤ 10 → (1 ≤ 10 ^ d) × (10 ^ d ≤ 10 ^ 10)
power_bounds d h =
    let t =
      holds_below_sound 11 (λ e. leb (10 ^ e) (10 ^ 10) && leb 1 (10 ^ e)) d power_table
        (omega arith) in
    ground arith

length-to_string_le : (d n : ℕ) → 1 ≤ d → n < 10 ^ d → length (to_string n) ≤ d
length-to_string_le zero n h lt = absurd (omega arith)
length-to_string_le (suc k) n h lt = length-to_string k n lt

print_code-IsCode :
    (binary d : ℕ) → 6 ≤ d → d ≤ 10 → IsCode (print_code binary d) d (binary % 10 ^ d)
unfolding print_code
print_code-IsCode binary d h k =
    let n : ℕ = binary % 10 ^ d in
    let small : n < 10 ^ d = omega (arith, power_bounds d k) in
    let short = length-to_string_le d n (omega arith) small in
    rw (modulus_loop-pow d k) (record {
      size = length-pad_zeros d d (to_string n) short (omega arith);
      decimal = pad_zeros-digits d d (to_string n) (to_string-digits n);
      spells =
          stoi-pad_zeros d d (to_string n) ∙ stoi-to_string n (omega (arith, power_bounds d k));
    })

-- The four bytes that the truncation reads lie within the MAC.
pub truncate_in_range :
    (mac : Bytes) → 20 ≤ length mac → get_or mac (length mac - 1) 0 % 16 + 3 < length mac
truncate_in_range mac h = omega arith

get_or-IsByte : (xs : Bytes) (i : ℕ) → IsBytes xs → IsByte (get_or xs i 0)
get_or-IsByte [] i h = omega arith
get_or-IsByte (x ∷ xs) zero h = h.0
get_or-IsByte (x ∷ xs) (suc i) h = get_or-IsByte xs i h.1

-- The truncated value has 31 bits.
pub truncate-lt : (mac : Bytes) → IsBytes mac → truncate mac < 2 ^ 31
unfolding truncate
truncate-lt mac h =
    let o = get_or mac (length mac - 1) 0 % 16 in
    omega
      (arith, get_or-IsByte mac (o + 1) h, get_or-IsByte mac (o + 2) h, get_or-IsByte mac (o + 3) h)

module _ (p : Primitives) where
  -- A code has exactly the requested number of decimal digits, and spells the truncated HMAC of the
  -- counter modulo that power of ten.
  pub hotp_sound :
      (key : Bytes) (counter digits : ℕ) (algorithm : TotpAlgorithm) {code : Bytes}
      → hotp p key counter digits algorithm ≡ ok code
      → (6 ≤ digits)
        × (digits ≤ 10)
        × (mac : Bytes) × (p.hmac algorithm key (counter_bytes 8 counter []) ≡ some mac)
        × (20 ≤ length mac)
        × IsCode code digits (truncate mac % 10 ^ digits)
  unfolding hotp
  hotp_sound key counter digits algorithm {code} h =
      let g1 = throw_if-eq-ok (is_empty key) _ _ h in
      let g2 = throw_if-eq-ok (ltb digits 6 || ltb 10 digits) _ _ g1.1 in
      let (mac, hm, h3) =
        >>=-eq-ok (or_throw (p.hmac algorithm key (counter_bytes 8 counter [])) "hotp: HMAC failed")
          _ g2.1 in
      let g4 = throw_if-eq-ok (ltb (length mac) 20) _ _ h3 in
      let low : 6 ≤ digits = ground (arith, g2.0) in
      let high : digits ≤ 10 = ground (arith, g2.0) in
      let printed : print_code (truncate mac) digits ≡ code = cc g4.1 in
      (
        low,
        high,
        mac,
        ground (arith, hm),
        ground (arith, g4.0),
        subst (λ (c : Bytes). IsCode c digits (truncate mac % 10 ^ digits)) printed
            (print_code-IsCode (truncate mac) digits low high),
      )

  -- All times of one period give the same code.
  pub totp_period :
      (key : Bytes) (t u period digits : ℕ) (algorithm : TotpAlgorithm)
      → t / period ≡ u / period
      → totp p key t period digits algorithm ≡ totp p key u period digits algorithm
  unfolding totp
  totp_period key t u period digits algorithm e = rw e
