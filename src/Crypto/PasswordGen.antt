-- ===== src/Crypto/PasswordGen.antt =====
-- src/crypto/passwordgen.{h,cpp}: random indices and generated passwords. `Draws` is what the calls
-- of `RAND_bytes` give, one after the other: four bytes, or a failure.
pub mod Index
pub mod Sound
pub mod Total
use harbour_leyni.Prelude.{
  ℕ, zero, suc, ◌+◌, ◌-◌, ◌*◌, ◌%◌, ◌^◌, ltb, ◌==◌, Bool, true, false, ◌&&◌, ◌||◌, not, List, [],
  ◌∷◌, ◌++◌, Option, none, some, Bytes, codes, length, is_empty, get_or, set, if◌then◌else◌,
  CryptoError, message,
}
use Prim.Native.Nat.{max}

abbrev pub Draws : Type 0
Draws = List (Option Bytes)

-- A result with the draws that are left, an exception, or a wait for a draw beyond the last.
pub data Drawn {ℓ} (A : Type ℓ) : Type ℓ where
  done : A → Draws → Drawn A
  threw : CryptoError → Drawn A
  waiting : Drawn A

infixl 5 ◌>>=◌
abbrev pub ◌>>=◌ {ℓ κ} : {A : Type ℓ} {B : Type κ} → Drawn A → (A × Draws → Drawn B) → Drawn B
done a draws >>= next = next (a, draws)
threw e >>= next = threw e
waiting >>= next = waiting

unfoldable pub word_of : Bytes → ℕ
word_of b = get_or b 0 0 * 2 ^ 24 + get_or b 1 0 * 2 ^ 16 + get_or b 2 0 * 2 ^ 8 + get_or b 3 0

unfoldable pub random32 : Draws → Drawn ℕ
random32 [] = waiting
random32 (none ∷ draws) = threw (message "passwordgen: RAND_bytes failed")
random32 (some b ∷ draws) = done (word_of b) draws

-- 2^32 mod `bound`, in `uint32_t`.
unfoldable pub remainder : ℕ → ℕ
remainder bound = ((2 ^ 32 - 1) % bound + 1) % 2 ^ 32 % bound

-- The loop: a word from `max_accept` on is drawn again.
unfoldable pub index_loop : ℕ → ℕ → Draws → Drawn ℕ
index_loop bound max_accept [] = waiting
index_loop bound max_accept (none ∷ draws) = threw (message "passwordgen: RAND_bytes failed")
index_loop bound max_accept (some b ∷ draws) =
    let again = index_loop bound max_accept draws in
    if ltb (word_of b) max_accept then done (word_of b % bound) draws else again

unfoldable pub random_index : ℕ → Draws → Drawn ℕ
random_index bound draws =
    if bound == 0
    then threw (message "randomIndex: zero bound")
    else if remainder bound == 0
    then random32 draws >>= (λ drawn. done (drawn.0 % bound) drawn.1)
    else index_loop bound ((2 ^ 32 - remainder bound) % 2 ^ 32) draws

-- The minima are `int`s, given as 0 where they are negative: `std::max` makes both 1.
pub record PasswordOptions : Type 0 where
  pub length : ℕ
  pub lowercase : Bool
  pub uppercase : Bool
  pub digits : Bool
  pub symbols : Bool
  pub avoid_ambiguous : Bool
  pub min_digits : ℕ
  pub min_symbols : ℕ

unfoldable pub occurs : ℕ → Bytes → Bool
occurs c [] = false
occurs c (x ∷ xs) = x == c || occurs c xs

unfoldable pub drop_ambiguous : Bytes → Bytes
drop_ambiguous [] = []
drop_ambiguous (c ∷ cs) =
    let out = drop_ambiguous cs in if occurs c (codes "Il1O0o") then out else c ∷ out

unfoldable pub filter_ambiguous : Bytes → Bool → Bytes
filter_ambiguous s avoid = if avoid then drop_ambiguous s else s

unfoldable pub pick : Bytes → Draws → Drawn ℕ
pick chars draws =
    random_index (length chars) draws >>= (λ drawn. done (get_or chars drawn.0 0) drawn.1)

-- `n` rounds of `chars.push_back(pick(from))`.
unfoldable pub push_picks : ℕ → Bytes → Bytes → Draws → Drawn Bytes
push_picks zero from chars draws = done chars draws
push_picks (suc n) from chars draws =
    pick from draws >>= (λ drawn. push_picks n from (chars ++ drawn.0 ∷ []) drawn.1)

unfoldable pub swap : ℕ → ℕ → Bytes → Bytes
swap i j chars = set (set chars i (get_or chars j 0)) j (get_or chars i 0)

-- The shuffle from position `i` down.
unfoldable pub shuffle : ℕ → Bytes → Draws → Drawn Bytes
shuffle zero chars draws = done chars draws
shuffle (suc i) chars draws =
    random_index (suc i + 1) draws >>= (λ drawn. shuffle i (swap (suc i) drawn.0 chars) drawn.1)

pub record Classes : Type 0 where
  pub lower : Bytes
  pub upper : Bytes
  pub digit : Bytes
  pub symbol : Bytes

unfoldable pub classes : PasswordOptions → Classes
classes opts = record {
  lower =
      if opts.lowercase
      then filter_ambiguous (codes "abcdefghijklmnopqrstuvwxyz") opts.avoid_ambiguous
      else [];
  upper =
      if opts.uppercase
      then filter_ambiguous (codes "ABCDEFGHIJKLMNOPQRSTUVWXYZ") opts.avoid_ambiguous
      else [];
  digit = if opts.digits then filter_ambiguous (codes "0123456789") opts.avoid_ambiguous else [];
  symbol = if opts.symbols then codes "!@#$%^&*()-_=+[]{};:,.?" else [];
}

abbrev pub pool : Classes → Bytes
pool c = c.lower ++ c.upper ++ c.digit ++ c.symbol

unfoldable pub at_least : Bytes → ℕ → ℕ
at_least chars n = if is_empty chars then 0 else max 1 n

-- What the classes ask for, one after the other.
unfoldable pub asked : PasswordOptions → Classes → ℕ
asked opts c =
    at_least c.lower 1
    + at_least c.upper 1
    + at_least c.digit opts.min_digits
    + at_least c.symbol opts.min_symbols

-- The sum is an `int`: this is its 32-bit word, which wraps around.
unfoldable pub required : PasswordOptions → Classes → ℕ
required opts c = asked opts c % 2 ^ 32

-- `length < required`; the `int` of a word from 2^31 on is negative.
unfoldable pub is_short : ℕ → ℕ → Bool
is_short length word = ltb word (2 ^ 31) && ltb length word

unfoldable pub draw_chars : PasswordOptions → Classes → Draws → Drawn Bytes
draw_chars opts c draws =
    push_picks (at_least c.lower 1) c.lower [] draws
    >>= (λ one. push_picks (at_least c.upper 1) c.upper one.0 one.1)
    >>= (λ two. push_picks (at_least c.digit opts.min_digits) c.digit two.0 two.1)
    >>= (λ three. push_picks (at_least c.symbol opts.min_symbols) c.symbol three.0 three.1)
    >>= (λ four. push_picks (opts.length - length four.0) (pool c) four.0 four.1)

unfoldable pub generate_password : PasswordOptions → Draws → Drawn Bytes
generate_password opts draws =
    if ltb opts.length 1 || ltb 256 opts.length
    then threw (message "generatePassword: length out of range")
    else if is_empty (pool (classes opts))
    then threw (message "generatePassword: no character class enabled")
    else if is_short opts.length (required opts (classes opts))
    then threw (message "generatePassword: length too short for the selected options")
    else draw_chars opts (classes opts) draws
      >>= (λ drawn. shuffle (length drawn.0 - 1) drawn.0 drawn.1)
