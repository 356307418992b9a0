-- ===== src/Crypto/PasswordGen/Index.antt =====
-- Random indices are below their bound and have no bias.
use harbour_leyni.Prelude.{
  ℕ, ◌+◌, ◌-◌, ◌*◌, ◌%◌, ◌/◌, ◌^◌, ◌≤◌, ◌<◌, ◌≡◌, sym, subst, ap, ◌∙◌, arith, ltb, ◌==◌, true,
  false, Bool-cases, [], ◌∷◌, none, some, Bytes, if◌then◌else◌, inl, inr,
}
use native.Mathlib.Nat.{mod-lt, mod-eq_of_lt, suc-mod, div-add-mod'}
use harbour_leyni.Crypto.PasswordGen.{
  Draws, ◌>>=◌, done, word_of, random32, remainder, index_loop, random_index,
}

index_loop-lt :
    (bound limit : ℕ) (draws : Draws) {i : ℕ} {rest : Draws}
    → 1 ≤ bound
    → index_loop bound limit draws ≡ done i rest
    → i < bound
unfolding index_loop
index_loop-lt bound limit [] h e = absurd (cc e)
index_loop-lt bound limit (none ∷ draws) h e = absurd (cc e)
index_loop-lt bound limit (some b ∷ draws) {i} {rest} h e =
    elim (Bool-cases (ltb (word_of b) limit)) [
      | inl accepted ↦
          let same : word_of b % bound ≡ i = ground (arith, accepted) in
          subst (λ (j : ℕ). j < bound) same (mod-lt (word_of b) h)
      | inr refused ↦ index_loop-lt bound limit draws {rest = rest} h (ground (arith, refused))
    ]

power_case :
    (bound : ℕ) (draws : Draws) {i : ℕ} {rest : Draws}
    → 1 ≤ bound
    → (random32 draws >>= (λ drawn. done (drawn.0 % bound) drawn.1)) ≡ done i rest
    → i < bound
unfolding random32
power_case bound [] h e = absurd (cc e)
power_case bound (none ∷ draws) h e = absurd (cc e)
power_case bound (some b ∷ draws) {i} h e =
    let same : word_of b % bound ≡ i = cc e in
    subst (λ (j : ℕ). j < bound) same (mod-lt (word_of b) h)

-- 2^32 mod the bound, although no word holds 2^32.
remainder_lem : (bound : ℕ) → 1 ≤ bound → bound < 2 ^ 32 → remainder bound ≡ 2 ^ 32 % bound
unfolding remainder
remainder_lem bound h k =
    let small : (2 ^ 32 - 1) % bound < bound = mod-lt (2 ^ 32 - 1) h in
    ap (λ (n : ℕ). n % bound) (mod-eq_of_lt (omega (arith, small)))
    ∙ ap (λ (n : ℕ). n % bound) (omega arith)
    ∙ sym (suc-mod (2 ^ 32 - 1) bound)

limit_lem : (q r : ℕ) → q + r ≡ 2 ^ 32 → 1 ≤ r → (2 ^ 32 - r) % 2 ^ 32 ≡ q
limit_lem q r total some_rest = omega arith

-- For a bound from 1 to 2^32 - 1: the first word that is drawn, which is below 2^32, gives its
-- remainder by the bound if it is below the largest multiple of the bound that is at most 2^32,
-- and otherwise the index is drawn from the words after it.
pub random_index_uniform :
    (bound : ℕ) (b : Bytes) (draws : Draws)
    → 1 ≤ bound
    → bound < 2 ^ 32
    → word_of b < 2 ^ 32
    → random_index bound (some b ∷ draws) ≡ (
        if ltb (word_of b) (2 ^ 32 / bound * bound)
        then done (word_of b % bound) draws
        else random_index bound draws)
unfolding random_index random32 index_loop
random_index_uniform bound b draws h k word =
    let rem = remainder_lem bound h k in
    let whole = div-add-mod' (2 ^ 32) bound in
    let positive : (bound == 0) ≡ false = ground (arith, h) in
    elim (Bool-cases (remainder bound == 0)) [
      | inl even ↦
          let below : ltb (word_of b) (2 ^ 32 / bound * bound) ≡ true =
            ground (arith, rem, whole, even, word) in
          ground (arith, positive, even, below)
      | inr odd ↦
          let limit : (2 ^ 32 - remainder bound) % 2 ^ 32 ≡ 2 ^ 32 / bound * bound =
            limit_lem (2 ^ 32 / bound * bound) (remainder bound) (ground (arith, rem, whole))
              (ground (arith, odd)) in
          ground (arith, positive, odd, limit)
    ]

-- An index that is drawn is below its bound.
pub random_index-lt :
    (bound : ℕ) (draws : Draws) {i : ℕ} {rest : Draws}
    → random_index bound draws ≡ done i rest
    → i < bound
unfolding random_index
random_index-lt bound draws {i} {rest} e = elim (Bool-cases (bound == 0)) [
  | inl zero_bound ↦ absurd (ground (arith, zero_bound))
  | inr positive ↦ elim (Bool-cases (remainder bound == 0)) [
    | inr odd ↦
        index_loop-lt bound ((2 ^ 32 - remainder bound) % 2 ^ 32) draws {rest = rest}
          (ground (arith, positive)) (ground (arith, positive, odd))
    | inl even ↦
        power_case bound draws {rest = rest} (ground (arith, positive))
          (ground (arith, positive, even))
  ]
]
