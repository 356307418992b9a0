-- ===== src/Crypto/SecureBytes.antt =====
-- src/crypto/securebytes.cpp: the comparison that does not branch on secrets. A buffer is the list
-- of its bytes, and the empty buffer has no allocation (`m_data == nullptr`). Locking pages, zeroing
-- and freeing change no byte that the code reads.
use harbour_leyni.Prelude.{
  ℕ, zero, suc, ◌+◌, ◌≤◌, ◌<◌, ◌≡◌, ◌↔◌, refl, ap, Bool, true, false, not, [], ◌∷◌, arith, Bytes,
  length, get_or, is_empty, ◌==◌, if◌then◌else◌, ◌||◌, ==_iff, Bool-cases, inl, inr,
}
use native.Mathlib.Nat.{zero-add}
use harbour_leyni.Prelude.Bits.{bit_or, bit_xor, bit_or-eq-zero, bit_xor-eq-zero, bit_xor_self}

-- The loop over `i`; `n` is the number of rounds left. A byte out of bounds does not exist.
unfoldable pub compare_loop : Bytes → Bytes → ℕ → ℕ → ℕ → ℕ
compare_loop a b zero i diff = diff
compare_loop a b (suc n) i diff =
    compare_loop a b n (i + 1) (bit_or diff (bit_xor (get_or a i 0) (get_or b i 0)))

unfoldable pub constant_time_equal : Bytes → Bytes → ℕ → Bool
constant_time_equal a b n = if is_empty a || is_empty b then false else compare_loop a b n 0 0 == 0

-- `SecureBytes::operator==`
unfoldable pub secure_equal : Bytes → Bytes → Bool
secure_equal a b =
    if not (length a == length b)
    then false
    else if length a == 0
    then true
    else constant_time_equal a b (length a)

compare_loop_zero :
    (a b : Bytes) (n i diff : ℕ)
    → compare_loop a b n i diff ≡ 0
    → (diff ≡ 0) × ((k : ℕ) → k < n → get_or a (i + k) 0 ≡ get_or b (i + k) 0)
unfolding compare_loop
compare_loop_zero a b zero i diff e = (e, λ k h. absurd (omega arith))
compare_loop_zero a b (suc n) i diff e =
    let rest = compare_loop_zero a b n (i + 1) _ e in
    let now = bit_or-eq-zero diff (bit_xor (get_or a i 0) (get_or b i 0)) rest.0 in
    (now.0, at_each (bit_xor-eq-zero _ _ now.1) rest.1)
  where
    at_each :
        get_or a i 0 ≡ get_or b i 0
        → ((k : ℕ) → k < n → get_or a (i + 1 + k) 0 ≡ get_or b (i + 1 + k) 0)
        → (k : ℕ) → k < suc n
        → get_or a (i + k) 0 ≡ get_or b (i + k) 0
    at_each here later zero h = let e' : i + 0 ≡ i = omega arith in rw e' here
    at_each here later (suc k) h =
        let e' : i + suc k ≡ i + 1 + k = omega arith in rw e' (later k (omega arith))

eq_of_places :
    (a b : Bytes)
    → length a ≡ length b
    → ((k : ℕ) → k < length a → get_or a k 0 ≡ get_or b k 0)
    → a ≡ b
eq_of_places [] [] e h = refl
eq_of_places [] (y ∷ b) e h = absurd (omega arith)
eq_of_places (x ∷ a) [] e h = absurd (omega arith)
eq_of_places (x ∷ a) (y ∷ b) e h =
    let tails : a ≡ b = eq_of_places a b (omega arith) (λ k lt. h (suc k) (omega arith)) in
    let heads : x ≡ y = h 0 (omega arith) in cc

compare_loop_self : (a : Bytes) (n i : ℕ) → compare_loop a a n i 0 ≡ 0
unfolding compare_loop
compare_loop_self a zero i = refl
compare_loop_self a (suc n) i = rw (bit_xor_self (get_or a i 0)) (compare_loop_self a n (i + 1))

compare_loop-eq : (a b : Bytes) → length a ≡ length b → compare_loop a b (length a) 0 0 ≡ 0 → a ≡ b
compare_loop-eq a b e h =
    let places = compare_loop_zero a b (length a) 0 0 h in
    eq_of_places a b e (λ k lt. rw zero-add at (places.1 k lt))

-- Buffers of one length compare equal exactly if they hold the same bytes, unless both are empty.
pub constant_time_equal_iff :
    (a b : Bytes)
    → 1 ≤ length a
    → length a ≡ length b
    → (constant_time_equal a b (length a) ≡ true) ↔ (a ≡ b)
unfolding constant_time_equal
constant_time_equal_iff [] b h e = absurd (omega arith)
constant_time_equal_iff (x ∷ a) [] h e = absurd (omega arith)
constant_time_equal_iff (x ∷ a) (y ∷ b) h e = (
  λ same. compare_loop-eq (x ∷ a) (y ∷ b) e ((==_iff _ 0).0 same),
  λ same. rw (← same, compare_loop_self (x ∷ a) (suc (length a)) 0),
)

-- `==` on secrets decides equality of their bytes, whatever their lengths.
pub secure_equal_iff : (a b : Bytes) → (secure_equal a b ≡ true) ↔ (a ≡ b)
unfolding secure_equal
secure_equal_iff [] [] = (λ h. refl, λ h. refl)
secure_equal_iff [] (y ∷ b) = (λ h. ground arith, λ h. cc)
secure_equal_iff (x ∷ a) [] = (λ h. ground arith, λ h. cc)
secure_equal_iff (x ∷ a) (y ∷ b) = elim (Bool-cases (length (x ∷ a) == length (y ∷ b))) [
  | inl same ↦
      let e : length (x ∷ a) ≡ length (y ∷ b) = (==_iff _ _).0 same in
      let both = constant_time_equal_iff (x ∷ a) (y ∷ b) (omega arith) e in
      (λ h. both.0 (ground arith), λ h. let t = both.1 h in ground arith)
  | inr differ ↦ (
    λ h. ground arith,
    λ h. let e : length (x ∷ a) ≡ length (y ∷ b) = ap length h in ground arith,
  )
]
