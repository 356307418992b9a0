-- ===== src/Crypto/PasswordGen/Sound.antt =====
-- What a generated password consists of.
use harbour_leyni.Prelude.{
  ℕ, zero, suc, ◌+◌, ◌-◌, ◌≤◌, ◌<◌, ◌^◌, ◌≡◌, refl, sym, subst, ap, ◌∙◌, arith, ltb, ◌||◌, true,
  Bool-cases, [], ◌∷◌, ◌++◌, Bytes, length, length-append, is_empty, get_or, set, if◌then◌else◌,
  inl, inr,
}
use harbour_leyni.Crypto.PasswordGen.{
  Draws, Drawn, ◌>>=◌, done, threw, waiting, random_index, PasswordOptions, Classes, classes, pool,
  occurs, pick, push_picks, swap, shuffle, at_least, asked, required, is_short, draw_chars,
  generate_password,
}
use harbour_leyni.Crypto.PasswordGen.Index.{random_index-lt}

-- How many of the characters stand in `chars`.
abbrev pub count_of : Bytes → Bytes → ℕ
count_of chars [] = 0
count_of chars (c ∷ cs) = (if occurs c chars then 1 else 0) + count_of chars cs

count_of-append :
    (chars xs ys : Bytes) → count_of chars (xs ++ ys) ≡ count_of chars xs + count_of chars ys
count_of-append chars [] ys = omega arith
count_of-append chars (x ∷ xs) ys = omega (arith, count_of-append chars xs ys)

pub >>=-eq-done {ℓ κ} :
    {A : Type ℓ} {B : Type κ} (first : Drawn A) (next : A × Draws → Drawn B) {b : B} {rest : Draws}
    → (first >>= next) ≡ done b rest
    → (drawn : A × Draws) × (first ≡ done drawn.0 drawn.1) × (next drawn ≡ done b rest)
>>=-eq-done (done a draws) next e = ((a, draws), refl, e)
>>=-eq-done (threw x) next e = cc e
>>=-eq-done waiting next e = cc e

occurs-get_or : (chars : Bytes) (i : ℕ) → i < length chars → occurs (get_or chars i 0) chars ≡ true
unfolding occurs
occurs-get_or [] i h = absurd (omega arith)
occurs-get_or (c ∷ cs) zero h = ground arith
occurs-get_or (c ∷ cs) (suc i) h = ground (arith, occurs-get_or cs i (omega arith))

occurs-append : (c : ℕ) (xs ys : Bytes) → occurs c (xs ++ ys) ≡ (occurs c xs || occurs c ys)
unfolding occurs
occurs-append c [] ys = refl
occurs-append c (x ∷ xs) ys = ground (arith, occurs-append c xs ys)

pick_lem :
    (from : Bytes) (draws : Draws) {c : ℕ} {rest : Draws}
    → pick from draws ≡ done c rest
    → occurs c from ≡ true
unfolding pick
pick_lem from draws {c} e =
    let (drawn, index, last) = >>=-eq-done (random_index (length from) draws) _ e in
    let same : get_or from drawn.0 0 ≡ c = cc last in
    subst (λ (x : ℕ). occurs x from ≡ true) same
      (occurs-get_or from drawn.0 (random_index-lt (length from) draws index))

-- The `n` new characters stand in `from`, and so in every larger set.
pub push_picks_lem :
    (n : ℕ) (from chars : Bytes) (draws : Draws) {out : Bytes} {rest : Draws}
    → push_picks n from chars draws ≡ done out rest
    → (length out ≡ length chars + n)
      × ((larger : Bytes)
          → ((c : ℕ) → occurs c from ≡ true → occurs c larger ≡ true)
          → count_of larger out ≡ count_of larger chars + n)
      × ((other : Bytes) → count_of other chars ≤ count_of other out)
unfolding push_picks
push_picks_lem zero from chars draws {out} e =
    let same : chars ≡ out = cc e in
    subst
      (λ (o : Bytes).
        (length o ≡ length chars + 0)
        × ((larger : Bytes)
            → ((c : ℕ) → occurs c from ≡ true → occurs c larger ≡ true)
            → count_of larger o ≡ count_of larger chars + 0)
        × ((other : Bytes) → count_of other chars ≤ count_of other o))
      same (omega arith, λ larger h. omega arith, λ other. omega arith)
push_picks_lem (suc n) from chars draws {out} e =
    let (drawn, picked, e1) = >>=-eq-done (pick from draws) _ e in
    let (size, counts, grows) = push_picks_lem n from (chars ++ drawn.0 ∷ []) drawn.1 e1 in
    (
      omega (arith, size, length-append chars (drawn.0 ∷ [])),
      λ larger h. ground (
        arith,
        counts larger h,
        count_of-append larger chars (drawn.0 ∷ []),
        h drawn.0 (pick_lem from draws picked),
      ),
      λ other. omega (arith, grows other, count_of-append other chars (drawn.0 ∷ [])),
    )

length-set : (xs : Bytes) (i v : ℕ) → length (set xs i v) ≡ length xs
length-set [] i v = refl
length-set (x ∷ xs) zero v = refl
length-set (x ∷ xs) (suc i) v = ap suc (length-set xs i v)

count_of-set :
    (chars xs : Bytes) (i v : ℕ)
    → i < length xs
    → count_of chars (set xs i v) + (if occurs (get_or xs i 0) chars then 1 else 0)
      ≡ count_of chars xs + (if occurs v chars then 1 else 0)
count_of-set chars [] i v h = absurd (omega arith)
count_of-set chars (x ∷ xs) zero v h = omega arith
count_of-set chars (x ∷ xs) (suc i) v h = omega (arith, count_of-set chars xs i v (omega arith))

get_or-set : (xs : Bytes) (i j v : ℕ) → v ≡ get_or xs j 0 → get_or (set xs i v) j 0 ≡ get_or xs j 0
get_or-set [] i j v e = refl
get_or-set (x ∷ xs) zero zero v e = e
get_or-set (x ∷ xs) zero (suc j) v e = refl
get_or-set (x ∷ xs) (suc i) zero v e = refl
get_or-set (x ∷ xs) (suc i) (suc j) v e = get_or-set xs i j v e

swap_lem :
    (i j : ℕ) (xs : Bytes)
    → i < length xs
    → j < length xs
    → (length (swap i j xs) ≡ length xs)
      × ((chars : Bytes) → count_of chars (swap i j xs) ≡ count_of chars xs)
unfolding swap
swap_lem i j xs hi hj =
    let a = get_or xs i 0 in
    let b = get_or xs j 0 in
    let size = length-set xs i b in
    (
      length-set (set xs i b) j a ∙ size,
      λ chars.
          let again = get_or-set xs i j b refl in
          let first = count_of-set chars xs i b hi in
          let second = count_of-set chars (set xs i b) j a (omega (arith, size)) in
          let second_at_b : count_of chars (set (set xs i b) j a)
                + (if occurs b chars then 1 else 0)
              ≡ count_of chars (set xs i b) + (if occurs a chars then 1 else 0) =
            ap
              (λ (x : ℕ). count_of chars (set (set xs i b) j a) + (if occurs x chars then 1 else 0))
              (sym again)
            ∙ second in
          omega (arith, first, second_at_b),
    )

shuffle_lem :
    (i : ℕ) (xs : Bytes) (draws : Draws) {out : Bytes} {rest : Draws}
    → i < length xs
    → shuffle i xs draws ≡ done out rest
    → (length out ≡ length xs) × ((chars : Bytes) → count_of chars out ≡ count_of chars xs)
unfolding shuffle
shuffle_lem zero xs draws {out} h e =
    let same : xs ≡ out = cc e in (ap length (sym same), λ chars. ap (count_of chars) (sym same))
shuffle_lem (suc i) xs draws {out} h e =
    let (drawn, index, e1) = >>=-eq-done (random_index (suc i + 1) draws) _ e in
    let j = random_index-lt (suc i + 1) draws index in
    let (size, counts) = swap_lem (suc i) drawn.0 xs h (omega (arith, j)) in
    let (size2, counts2) =
      shuffle_lem i (swap (suc i) drawn.0 xs) drawn.1 (omega (arith, size)) e1 in
    (size2 ∙ size, λ chars. counts2 chars ∙ counts chars)

-- What a password that meets the options is.
pub record Meets (opts : PasswordOptions) (password : Bytes) : Type 0 where
  pub size : length password ≡ opts.length
  pub from_pool : count_of (pool (classes opts)) password ≡ opts.length
  pub lowers : at_least (classes opts).lower 1 ≤ count_of (classes opts).lower password
  pub uppers : at_least (classes opts).upper 1 ≤ count_of (classes opts).upper password
  pub digits :
      at_least (classes opts).digit opts.min_digits ≤ count_of (classes opts).digit password
  pub symbols :
      at_least (classes opts).symbol opts.min_symbols ≤ count_of (classes opts).symbol password

in_pool :
    (c : Classes) (x : ℕ)
    → (occurs x c.lower || occurs x c.upper || occurs x c.digit || occurs x c.symbol)
      ≡ occurs x (pool c)
in_pool c x = ground (
  arith,
  occurs-append x (c.lower ++ c.upper ++ c.digit) c.symbol,
  occurs-append x (c.lower ++ c.upper) c.digit,
  occurs-append x c.lower c.upper,
)

pub draw_chars-Meets :
    (opts : PasswordOptions) (draws : Draws) {out : Bytes} {rest : Draws}
    → asked opts (classes opts) ≤ opts.length
    → draw_chars opts (classes opts) draws ≡ done out rest
    → Meets opts out
unfolding draw_chars asked
draw_chars-Meets opts draws {out} h e =
    let c = classes opts in
    let nl = at_least c.lower 1 in
    let nu = at_least c.upper 1 in
    let nd = at_least c.digit opts.min_digits in
    let ns = at_least c.symbol opts.min_symbols in
    let (four, e4, e5) = >>=-eq-done _ _ e in
    let (three, e3, f4) = >>=-eq-done _ _ e4 in
    let (two, e2, f3) = >>=-eq-done _ _ e3 in
    let (one, e1, f2) = >>=-eq-done _ _ e2 in
    let (size1, counts1, grows1) = push_picks_lem nl c.lower [] draws e1 in
    let (size2, counts2, grows2) = push_picks_lem nu c.upper one.0 one.1 f2 in
    let (size3, counts3, grows3) = push_picks_lem nd c.digit two.0 two.1 f3 in
    let (size4, counts4, grows4) = push_picks_lem ns c.symbol three.0 three.1 f4 in
    let (size5, counts5, grows5) =
      push_picks_lem (opts.length - length four.0) (pool c) four.0 four.1 e5 in
    record {
      size = omega (arith, size1, size2, size3, size4, size5);
      from_pool = omega (
        arith,
        size1,
        size2,
        size3,
        size4,
        counts1 (pool c) (λ x k. ground (arith, in_pool c x, k)),
        counts2 (pool c) (λ x k. ground (arith, in_pool c x, k)),
        counts3 (pool c) (λ x k. ground (arith, in_pool c x, k)),
        counts4 (pool c) (λ x k. ground (arith, in_pool c x, k)),
        counts5 (pool c) (λ x k. k),
      );
      lowers = omega (
        arith,
        counts1 c.lower (λ x k. k),
        grows2 c.lower,
        grows3 c.lower,
        grows4 c.lower,
        grows5 c.lower,
      );
      uppers =
          omega (arith, counts2 c.upper (λ x k. k), grows3 c.upper, grows4 c.upper, grows5 c.upper);
      digits = omega (arith, counts3 c.digit (λ x k. k), grows4 c.digit, grows5 c.digit);
      symbols = omega (arith, counts4 c.symbol (λ x k. k), grows5 c.symbol);
    }

-- The shuffle keeps what a password has of each class.
shuffled-Meets :
    (opts : PasswordOptions) (xs out : Bytes)
    → length out ≡ length xs
    → ((chars : Bytes) → count_of chars out ≡ count_of chars xs)
    → Meets opts xs
    → Meets opts out
shuffled-Meets opts xs out size counts m =
    let c = classes opts in
    record {
      size = size ∙ m.size;
      from_pool = counts (pool c) ∙ m.from_pool;
      lowers = omega (arith, m.lowers, counts c.lower);
      uppers = omega (arith, m.uppers, counts c.upper);
      digits = omega (arith, m.digits, counts c.digit);
      symbols = omega (arith, m.symbols, counts c.symbol);
    }

-- Where what the classes ask for adds up to less than 2^31: a password that is generated has the
-- requested length, from 1 to 256; all its characters stand in the enabled classes, and of each class
-- it has at least one, or the requested number of digits and symbols, unless the class is off.
pub generate_password-Meets :
    (opts : PasswordOptions) (draws : Draws) {password : Bytes} {rest : Draws}
    → asked opts (classes opts) < 2 ^ 31
    → generate_password opts draws ≡ done password rest
    → (1 ≤ opts.length) × (opts.length ≤ 256) × Meets opts password
unfolding generate_password required is_short
generate_password-Meets opts draws {password} {rest} fits e =
    elim (Bool-cases (ltb opts.length 1 || ltb 256 opts.length)) [
      | inl bad ↦ absurd (ground (arith, bad))
      | inr in_range ↦ elim (Bool-cases (is_empty (pool (classes opts)))) [
        | inl none_on ↦ absurd (ground (arith, in_range, none_on))
        | inr some_on ↦ elim (Bool-cases (is_short opts.length (required opts (classes opts)))) [
          | inl short ↦ absurd (ground (arith, in_range, some_on, short))
          | inr enough ↦
              let (drawn, chars, shuffled) =
                >>=-eq-done (draw_chars opts (classes opts) draws)
                  (λ (d : Bytes × Draws). shuffle (length d.0 - 1) d.0 d.1) {b = password}
                  {rest = rest} (ground (arith, in_range, some_on, enough)) in
              let some_length : 1 ≤ opts.length = ground (arith, in_range) in
              let met = draw_chars-Meets opts draws (ground (arith, enough, fits)) chars in
              let (size, counts) =
                shuffle_lem (length drawn.0 - 1) drawn.0 drawn.1
                  (omega (arith, met.size, some_length)) shuffled in
              (
                some_length,
                ground (arith, in_range),
                shuffled-Meets opts drawn.0 password size counts met,
              )
        ]
      ]
    ]
