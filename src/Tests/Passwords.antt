-- ===== src/Tests/Passwords.antt =====
-- Password generation from fixed random words.
use harbour_leyni.Prelude.{
  ℕ, ◌*◌, ◌/◌, ◌%◌, ◌^◌, ◌≤◌, ◌<◌, All, ◌≡◌, refl, arith, ltb, true, false, [], ◌∷◌, some, Bytes,
  codes, length, if◌then◌else◌,
}
use harbour_leyni.Crypto.PasswordGen.{
  Draws, done, word_of, random32, remainder, index_loop, random_index, PasswordOptions, pool,
  classes, occurs, drop_ambiguous, filter_ambiguous, pick, push_picks, swap, shuffle, at_least,
  asked, required, is_short, draw_chars, generate_password,
}
use harbour_leyni.Crypto.PasswordGen.Index.{random_index_uniform}
use harbour_leyni.Crypto.PasswordGen.Total.{IsAccepted, generate_password_total}
use harbour_leyni.Crypto.PasswordGen.Sound.{Meets, generate_password-Meets}

abbrev word : ℕ → Bytes
word n = 0 ∷ 0 ∷ 0 ∷ n ∷ []

abbrev top : Bytes
top = 255 ∷ 255 ∷ 255 ∷ 255 ∷ []

-- 2^32 - 1 is the one word that is no part of a whole run of threes.
refused_word : random_index 3 (some top ∷ some (word 5) ∷ []) ≡ done 2 []
unfolding random_index remainder index_loop word_of
refused_word = refl

random_index_uniform_example : random_index 3 (some top ∷ some (word 5) ∷ []) ≡ (
    if ltb (word_of top) (2 ^ 32 / 3 * 3)
    then done (word_of top % 3) (some (word 5) ∷ [])
    else random_index 3 (some (word 5) ∷ []))
unfolding word_of
random_index_uniform_example =
    random_index_uniform 3 top (some (word 5) ∷ []) (omega arith) (omega arith) (omega arith)

abbrev options : PasswordOptions
options = record {
  length = 5;
  lowercase = true;
  uppercase = false;
  digits = true;
  symbols = false;
  avoid_ambiguous = true;
  min_digits = 2;
  min_symbols = 1;
}

abbrev draws : Draws
draws =
    some (word 0)
    ∷ some (word 1)
    ∷ some (word 2)
    ∷ some (word 3)
    ∷ some (word 30)
    ∷ some (word 1)
    ∷ some (word 2)
    ∷ some (word 0)
    ∷ some (word 1)
    ∷ []

abbrev made : Bytes
made = codes "d8a43"

generates : generate_password options draws ≡ done made []
unfolding generate_password draw_chars classes filter_ambiguous drop_ambiguous occurs asked required
    is_short at_least push_picks pick random_index remainder random32 index_loop word_of swap
    shuffle
generates = refl

few_asked : asked options (classes options) < 2 ^ 31
unfolding asked at_least classes filter_ambiguous drop_ambiguous occurs
few_asked = omega arith

generate_password-Meets_example : (1 ≤ 5) × (5 ≤ 256) × Meets options made
generate_password-Meets_example = generate_password-Meets options draws few_asked generates

some_pool : 1 ≤ length (pool (classes options))
unfolding classes filter_ambiguous drop_ambiguous occurs
some_pool = omega arith

room : asked options (classes options) ≤ 5
unfolding asked at_least classes filter_ambiguous drop_ambiguous occurs
room = omega arith

accepted : All IsAccepted draws
unfolding word_of
accepted = omega arith

accepts : word_of (word 7) < 2 ^ 31
unfolding word_of
accepts = omega arith

generate_password_total_example :
    (password : Bytes) × ((rest : Draws) × (generate_password options (some (word 7) ∷ draws)
        ≡ done password rest)
      × Meets options password)
generate_password_total_example =
    generate_password_total options (some (word 7) ∷ draws) (omega arith) (omega arith) some_pool
      room (omega arith) (accepts, accepted)
