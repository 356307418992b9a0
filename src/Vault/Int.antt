-- ===== src/Vault/Int.antt =====
-- The arithmetic of `int` that src/vault and src/ui compute with: 32 bits, which wrap around.
use harbour_leyni.Prelude.{
  ℕ, suc, ◌-◌, ◌*◌, ◌%◌, ◌^◌, ◌≤◌, ◌≡◌, arith, ltb, Bool, false, if◌then◌else◌,
}
use harbour_leyni.Vault.Json.{ℤ, pos, negsuc}

-- The `int` of a 32-bit word.
unfoldable pub as_int : ℕ → ℤ
as_int word = if ltb word (2 ^ 31) then pos word else negsuc (2 ^ 32 - 1 - word)

-- The product of an `int` and a constant.
unfoldable pub mul_int : ℤ → ℕ → ℤ
mul_int (pos n) k = as_int (n * k % 2 ^ 32)
mul_int (negsuc n) k = as_int ((2 ^ 32 - suc n * k % 2 ^ 32) % 2 ^ 32)

abbrev pub is_positive : ℤ → Bool
is_positive (pos n) = ltb 0 n
is_positive (negsuc n) = false

-- Below 2^31, the product is exact.
pub mul_int-exact : (n k : ℕ) → suc (n * k) ≤ 2 ^ 31 → mul_int (pos n) k ≡ pos (n * k)
unfolding mul_int as_int
mul_int-exact n k h = ground arith
