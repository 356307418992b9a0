-- ===== src/Prelude/Decimal.antt =====
-- Decimal text: `std::to_string` of an unsigned number and `std::stoi` of a text of digits.
use Prim.Native.Nat.{ℕ, zero, suc, ◌+◌, ◌-◌, ◌*◌, ◌/◌, ◌%◌, ◌^◌, ◌≤◌, ◌<◌}
use mathlib.Core.Path.{◌≡◌}
use mathlib.Core.Bool.{Bool, ◌&&◌}
use mathlib.Core.List.{[], ◌∷◌}
use native.Mathlib.Omega.{arith}
use native.Mathlib.Nat.{pow-suc}
use harbour_leyni.Prelude.Tests.{leb, ◌==◌, if◌then◌else◌}
use harbour_leyni.Prelude.Lists.{Bytes, All, Lacks, length}

abbrev pub IsDigit : ℕ → Type 0
IsDigit c = (b'0' ≤ c) × (c ≤ b'9')

unfoldable pub is_digit : ℕ → Bool
is_digit c = leb b'0' c && leb c b'9'

-- The number that the digits of a text spell behind `n`.
unfoldable pub stoi : ℕ → Bytes → ℕ
stoi n [] = n
stoi n (c ∷ cs) = stoi (n * 10 + (c - b'0')) cs

-- The last digits of `n` in front of `out`.
unfoldable pub print : ℕ → ℕ → Bytes → Bytes
print zero n out = out
print (suc fuel) n out =
    let rest = print fuel (n / 10) ((b'0' + n % 10) ∷ out) in
    if n / 10 == 0 then (b'0' + n % 10) ∷ out else rest

-- Twenty rounds are enough for 64 bits.
unfoldable pub to_string : ℕ → Bytes
unfolding print
to_string n = print 20 n []

stoi-print : (fuel n : ℕ) (out : Bytes) → n < 10 ^ fuel → stoi 0 (print fuel n out) ≡ stoi n out
unfolding stoi print
stoi-print zero n out h = let e : n ≡ 0 = omega arith in ground arith
stoi-print (suc fuel) n out h =
    let smaller : n / 10 < 10 ^ fuel = omega (arith, pow-suc 10 fuel) in
    ground (arith, stoi-print fuel (n / 10) ((b'0' + n % 10) ∷ out) smaller)

print-digits : (fuel n : ℕ) (out : Bytes) → All IsDigit out → All IsDigit (print fuel n out)
unfolding print
print-digits zero n out h = h
print-digits (suc fuel) n out h =
    ground (arith, print-digits fuel (n / 10) ((b'0' + n % 10) ∷ out) (ground arith))

length-print :
    (fuel k n : ℕ) (out : Bytes) → n < 10 ^ suc k → length (print fuel n out) ≤ length out + suc k
unfolding print
length-print zero k n out h = omega arith
length-print (suc fuel) zero n out h = ground arith
length-print (suc fuel) (suc k) n out h =
    let smaller : n / 10 < 10 ^ suc k = omega (arith, pow-suc 10 (suc k)) in
    ground (arith, length-print fuel k (n / 10) ((b'0' + n % 10) ∷ out) smaller)

le-length-print : (fuel n : ℕ) (out : Bytes) → length out ≤ length (print fuel n out)
unfolding print
le-length-print zero n out = omega arith
le-length-print (suc fuel) n out =
    ground (arith, le-length-print fuel (n / 10) ((b'0' + n % 10) ∷ out))

-- A printed number is read back.
pub stoi-to_string : (n : ℕ) → n < 10 ^ 20 → stoi 0 (to_string n) ≡ n
stoi-to_string n h = unfold to_string stoi in stoi-print 20 n [] h

pub to_string-digits : (n : ℕ) → All IsDigit (to_string n)
to_string-digits n = unfold to_string in print-digits 20 n [] tt

pub length-to_string : (k n : ℕ) → n < 10 ^ suc k → length (to_string n) ≤ suc k
length-to_string k n h = unfold to_string in omega (arith, length-print 20 k n [] h)

pub to_string_some : (n : ℕ) → 1 ≤ length (to_string n)
to_string_some n =
    unfold to_string in ground (arith, le-length-print 19 (n / 10) ((b'0' + n % 10) ∷ []))

pub digits-Lacks : (c : ℕ) (s : Bytes) → ¬ IsDigit c → All IsDigit s → Lacks c s
digits-Lacks c [] h d = tt
digits-Lacks c (x ∷ s) h d = (λ e. h (omega arith), digits-Lacks c s h d.1)
