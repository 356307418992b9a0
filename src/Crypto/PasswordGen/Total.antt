-- ===== src/Crypto/PasswordGen/Total.antt =====
-- Random words that are accepted are enough for a password: no loop waits for ever.
use harbour_leyni.Prelude.{
  ℕ, zero, suc, ◌+◌, ◌-◌, ◌*◌, ◌/◌, ◌%◌, ◌^◌, ◌≤◌, ◌<◌, ◌≡◌, refl, ap, ◌∙◌, arith, ltb, Bool, true,
  false, [], ◌∷◌, ◌++◌, Option, none, some, Bytes, codes, length, length-append, is_empty-of_length,
  get_or, All, if◌then◌else◌,
}
use native.Mathlib.Nat.{mod-lt, div-add-mod'}
use harbour_leyni.Crypto.PasswordGen.{
  Draws, Drawn, ◌>>=◌, done, word_of, random_index, PasswordOptions, Classes, classes, pool,
  filter_ambiguous, drop_ambiguous, pick, push_picks, swap, shuffle, at_least, asked, required,
  is_short, draw_chars, generate_password,
}
use harbour_leyni.Crypto.PasswordGen.Index.{random_index_uniform}
use harbour_leyni.Crypto.PasswordGen.Sound.{Meets, push_picks_lem, generate_password-Meets}

-- Four bytes that are a word below 2^31: no bound up to 256 refuses them.
abbrev pub IsAccepted : Option Bytes → Type 0
IsAccepted none = 1 ≤ 0
IsAccepted (some b) = word_of b < 2 ^ 31

random_index-eq :
    (bound : ℕ) (b : Bytes) (draws : Draws)
    → 1 ≤ bound
    → bound ≤ 256
    → word_of b < 2 ^ 31
    → random_index bound (some b ∷ draws) ≡ done (word_of b % bound) draws
random_index-eq bound b draws h k w =
    let whole = div-add-mod' (2 ^ 32) bound in
    let small : 2 ^ 32 % bound < bound = mod-lt (2 ^ 32) h in
    let below : ltb (word_of b) (2 ^ 32 / bound * bound) ≡ true =
      ground (arith, whole, small, w, k) in
    let uniform = random_index_uniform bound b draws h (omega (arith, k)) (omega (arith, w)) in
    ground (arith, uniform, below)

push_picks_total :
    (n : ℕ) (from chars : Bytes) (draws : Draws)
    → (1 ≤ n → 1 ≤ length from)
    → length from ≤ 256
    → n ≤ length draws
    → All IsAccepted draws
    → (out : Bytes) × ((rest : Draws) × (push_picks n from chars draws ≡ done out rest)
        × (length rest + n ≡ length draws)
        × All IsAccepted rest)
unfolding push_picks pick
push_picks_total zero from chars draws h k enough good = (chars, (draws, refl, omega arith, good))
push_picks_total (suc n) from chars [] h k enough good = absurd (omega arith)
push_picks_total (suc n) from chars (none ∷ draws) h k enough good = absurd (omega (arith, good.0))
push_picks_total (suc n) from chars (some b ∷ draws) h k enough good =
    let index = random_index-eq (length from) b draws (h (omega arith)) k good.0 in
    let c = get_or from (word_of b % length from) 0 in
    let (out, (rest, e, size, left)) =
      push_picks_total n from (chars ++ c ∷ []) draws (λ m. h (omega arith)) k (omega arith)
        good.1 in
    (out, (rest, ground (arith, index, e), omega (arith, size), left))

shuffle_total :
    (i : ℕ) (xs : Bytes) (draws : Draws)
    → i < 256
    → i ≤ length draws
    → All IsAccepted draws
    → (out : Bytes) × ((rest : Draws) × (shuffle i xs draws ≡ done out rest))
unfolding shuffle
shuffle_total zero xs draws h enough good = (xs, (draws, refl))
shuffle_total (suc i) xs [] h enough good = absurd (omega arith)
shuffle_total (suc i) xs (none ∷ draws) h enough good = absurd (omega (arith, good.0))
shuffle_total (suc i) xs (some b ∷ draws) h enough good =
    let index = random_index-eq (suc i + 1) b draws (omega arith) (omega arith) good.0 in
    let (out, (rest, e)) =
      shuffle_total i (swap (suc i) (word_of b % (suc i + 1)) xs) draws (omega arith) (omega arith)
        good.1 in
    (out, (rest, ground (arith, index, e)))

length-drop_ambiguous : (s : Bytes) → length (drop_ambiguous s) ≤ length s
unfolding drop_ambiguous
length-drop_ambiguous [] = omega arith
length-drop_ambiguous (c ∷ s) = ground (arith, length-drop_ambiguous s)

class_size :
    (on : Bool) (s : Bytes) (avoid : Bool)
    → length (if on then filter_ambiguous s avoid else []) ≤ length s
unfolding filter_ambiguous
class_size false s avoid = omega arith
class_size true s false = omega arith
class_size true s true = length-drop_ambiguous s

symbol_size : (on : Bool) (s : Bytes) → length (if on then s else []) ≤ length s
symbol_size false s = omega arith
symbol_size true s = omega arith

at_least_some : (chars : Bytes) (n : ℕ) → 1 ≤ at_least chars n → 1 ≤ length chars
unfolding at_least
at_least_some [] n h = absurd (omega arith)
at_least_some (c ∷ chars) n h = omega arith

-- The classes, and the pool of all of them, are small enough for an index.
record AreSmall (c : Classes) : Type 0 where
  lower_size : length c.lower ≤ 26
  upper_size : length c.upper ≤ 26
  digit_size : length c.digit ≤ 10
  symbol_size : length c.symbol ≤ 23

classes-AreSmall : (opts : PasswordOptions) → AreSmall (classes opts)
unfolding classes
classes-AreSmall opts = record {
  lower_size = class_size opts.lowercase (codes "abcdefghijklmnopqrstuvwxyz") opts.avoid_ambiguous;
  upper_size = class_size opts.uppercase (codes "ABCDEFGHIJKLMNOPQRSTUVWXYZ") opts.avoid_ambiguous;
  digit_size = class_size opts.digits (codes "0123456789") opts.avoid_ambiguous;
  symbol_size = symbol_size opts.symbols (codes "!@#$%^&*()-_=+[]{};:,.?");
}

pool_size : (c : Classes) → AreSmall c → length (pool c) ≤ 256
pool_size c small = omega (
  arith,
  small.lower_size,
  small.upper_size,
  small.digit_size,
  small.symbol_size,
  length-append (c.lower ++ c.upper ++ c.digit) c.symbol,
  length-append (c.lower ++ c.upper) c.digit,
  length-append c.lower c.upper,
)

-- A computation that ends with `size` characters, and leaves `left` accepted words.
abbrev IsSupplied : Drawn Bytes → ℕ → ℕ → Type 0
IsSupplied drawn size left =
    (out : Bytes) × ((rest : Draws) × (drawn ≡ done out rest)
      × (length out ≡ size)
      × (length rest ≡ left)
      × All IsAccepted rest)

push_picks-IsSupplied :
    (n size left : ℕ) (from chars : Bytes) (draws : Draws)
    → (1 ≤ n → 1 ≤ length from)
    → length from ≤ 256
    → n ≤ left
    → length chars ≡ size
    → length draws ≡ left
    → All IsAccepted draws
    → IsSupplied (push_picks n from chars draws) (size + n) (left - n)
push_picks-IsSupplied n size left from chars draws h k enough is_size is_left good =
    let (out, (rest, e, spent, good2)) =
      push_picks_total n from chars draws h k (omega (arith, enough, is_left)) good in
    (
      out,
      (
        rest,
        e,
        (push_picks_lem n from chars draws e).0 ∙ ap (λ (m : ℕ). m + n) is_size,
        omega (arith, spent, is_left),
        good2,
      ),
    )

then_picks :
    (first : Drawn Bytes) (count : Bytes → ℕ) (n size left : ℕ) (from : Bytes)
    → IsSupplied first size left
    → ((out : Bytes) → length out ≡ size → count out ≡ n)
    → (1 ≤ n → 1 ≤ length from)
    → length from ≤ 256
    → n ≤ left
    → IsSupplied
        (first >>= (λ drawn. push_picks (count drawn.0) from drawn.0 drawn.1))
        (size + n)
        (left - n)
then_picks first count n size left from (out, (rest, e, is_size, is_left, good)) counts h k enough =
    let (out2, (rest2, e2, size2, left2, good2)) =
      push_picks-IsSupplied n size left from out rest h k enough is_size is_left good in
    let chained : (first >>= (λ drawn. push_picks (count drawn.0) from drawn.0 drawn.1))
        ≡ done out2 rest2 =
      ap (λ (d : Drawn Bytes). d >>= (λ drawn. push_picks (count drawn.0) from drawn.0 drawn.1)) e
      ∙ ap (λ (m : ℕ). push_picks m from out rest) (counts out is_size)
      ∙ e2 in
    (out2, (rest2, chained, size2, left2, good2))

resized :
    (drawn : Drawn Bytes) {size size2 left left2 : ℕ}
    → size ≡ size2
    → left ≡ left2
    → IsSupplied drawn size left
    → IsSupplied drawn size2 left2
resized drawn e e2 (out, (rest, h, is_size, is_left, good)) =
    (out, (rest, h, is_size ∙ e, is_left ∙ e2, good))

four_classes :
    (opts : PasswordOptions) (c : Classes) (draws : Draws)
    → AreSmall c
    → asked opts c ≤ length draws
    → All IsAccepted draws
    → IsSupplied
        (push_picks (at_least c.lower 1) c.lower [] draws
          >>= (λ one. push_picks (at_least c.upper 1) c.upper one.0 one.1)
          >>= (λ two. push_picks (at_least c.digit opts.min_digits) c.digit two.0 two.1)
          >>= (λ three. push_picks (at_least c.symbol opts.min_symbols) c.symbol three.0 three.1))
        (asked opts c)
        (length draws - asked opts c)
unfolding asked
four_classes opts c draws small enough good =
    let nl = at_least c.lower 1 in
    let nu = at_least c.upper 1 in
    let nd = at_least c.digit opts.min_digits in
    let ns = at_least c.symbol opts.min_symbols in
    let n = length draws in
    let one =
      push_picks-IsSupplied nl 0 n c.lower [] draws (at_least_some c.lower 1)
        (omega (arith, small.lower_size)) (omega (arith, enough)) refl refl good in
    let two =
      then_picks _ (λ out. nu) nu (0 + nl) (n - nl) c.upper one (λ out e. refl)
        (at_least_some c.upper 1) (omega (arith, small.upper_size)) (omega (arith, enough)) in
    let three =
      then_picks _ (λ out. nd) nd (0 + nl + nu) (n - nl - nu) c.digit two (λ out e. refl)
        (at_least_some c.digit opts.min_digits) (omega (arith, small.digit_size))
        (omega (arith, enough)) in
    let four =
      then_picks _ (λ out. ns) ns (0 + nl + nu + nd) (n - nl - nu - nd) c.symbol three
        (λ out e. refl) (at_least_some c.symbol opts.min_symbols) (omega (arith, small.symbol_size))
        (omega (arith, enough)) in
    resized _ (omega arith) (omega arith) four

draw_chars_total :
    (opts : PasswordOptions) (draws : Draws)
    → 1 ≤ length (pool (classes opts))
    → asked opts (classes opts) ≤ opts.length
    → opts.length ≤ length draws
    → All IsAccepted draws
    → IsSupplied (draw_chars opts (classes opts) draws) opts.length (length draws - opts.length)
unfolding draw_chars
draw_chars_total opts draws some_pool h enough good =
    let c = classes opts in
    let small = classes-AreSmall opts in
    let r = asked opts c in
    let n = length draws in
    let four = four_classes opts c draws small (omega (arith, h, enough)) good in
    let five =
      then_picks _ (λ out. opts.length - length out) (opts.length - r) r (n - r) (pool c) four
        (λ out e. ap (λ (m : ℕ). opts.length - m) e) (λ m. some_pool) (pool_size c small)
        (omega (arith, h, enough)) in
    resized _ (omega (arith, h)) (omega (arith, h, enough)) five

-- With options that can be met (a length from 1 to 256, a class that is on, and room for what
-- each class asks) and at least twice as many words as characters, all below 2^31, a password is
-- generated, and it meets the options.
pub generate_password_total :
    (opts : PasswordOptions) (draws : Draws)
    → 1 ≤ opts.length
    → opts.length ≤ 256
    → 1 ≤ length (pool (classes opts))
    → asked opts (classes opts) ≤ opts.length
    → opts.length + opts.length ≤ length draws
    → All IsAccepted draws
    → (password : Bytes) × ((rest : Draws) × (generate_password opts draws ≡ done password rest)
        × Meets opts password)
unfolding generate_password required is_short
generate_password_total opts draws low high some_pool room enough good =
    let (chars, (rest, e, size, left, good2)) =
      draw_chars_total opts draws some_pool room (omega (arith, enough)) good in
    let (password, (rest2, e2)) =
      shuffle_total (length chars - 1) chars rest (omega (arith, size, high))
        (omega (arith, size, left, enough)) good2 in
    let on = is_empty-of_length (pool (classes opts)) some_pool in
    let eq : generate_password opts draws ≡ done password rest2 =
      ground (arith, low, high, on, room, e, e2) in
    (password, (rest2, eq, (generate_password-Meets opts draws (omega (arith, room, high)) eq).2))
