-- ===== src/Tests/Toy.antt =====
-- Primitives for the tests. They meet the laws that are assumed of the real ones and protect nothing.
use harbour_leyni.Prelude.{
  ℕ, zero, suc, ◌+◌, ◌-◌, ◌%◌, ◌≤◌, ◌<◌, ◌≡◌, refl, ap, arith, true, [], ◌∷◌, ◌++◌, some, inr,
  Bytes, IsBytes, IsByte, All-append, length, length-append, drop,
}
use harbour_leyni.Crypto.Primitives.{Primitives, HmacLaws, AesLaws, plain}

unfoldable pub replicate : ℕ → ℕ → Bytes
replicate zero b = []
replicate (suc n) b = b ∷ replicate n b

pub length-replicate : (n b : ℕ) → length (replicate n b) ≡ n
unfolding replicate
length-replicate zero b = refl
length-replicate (suc n) b = ap suc (length-replicate n b)

replicate-IsBytes : (n b : ℕ) → b < 256 → IsBytes (replicate n b)
unfolding replicate
replicate-IsBytes zero b h = tt
replicate-IsBytes (suc n) b h = (h, replicate-IsBytes n b h)

sum : Bytes → ℕ
sum [] = 0
sum (b ∷ bs) = b + sum bs

unfoldable pub checksum : Bytes → Bytes → Bytes
unfolding replicate sum
checksum key input = replicate 32 ((sum key + sum input) % 256)

-- As many bytes in front as fill the last block, each of that value.
unfoldable pub pad_front : Bytes → Bytes
unfolding replicate
pad_front input = let k = 16 - length input % 16 in replicate k k ++ input

unfoldable pub unpad : Bytes → Bytes
unpad [] = []
unpad (k ∷ rest) = drop k (k ∷ rest)

drop-replicate : (k b : ℕ) (input : Bytes) → drop k (replicate k b ++ input) ≡ input
unfolding replicate
drop-replicate zero b input = refl
drop-replicate (suc k) b input = drop-replicate k b input

unpad-replicate : (k : ℕ) (input : Bytes) → 1 ≤ k → unpad (replicate k k ++ input) ≡ input
unfolding replicate unpad
unpad-replicate zero input h = absurd (omega arith)
unpad-replicate (suc k) input h = drop-replicate k (suc k) input

unpad-pad_front : (input : Bytes) → unpad (pad_front input) ≡ input
unfolding pad_front
unpad-pad_front input = unpad-replicate (16 - length input % 16) input (omega arith)

unfoldable pub toy : Primitives
unfolding checksum pad_front unpad
toy = record {
  pbkdf2 = λ password salt iterations n. some (replicate n 5);
  argon2id_hash_raw = λ t m l password salt n. inr (replicate n 7);
  digest_sha256 = λ input. some (replicate 32 9);
  hkdf_expand = λ key info n. some (replicate n 11);
  hmac = λ digest key input. some (checksum key input);
  decrypt_init = λ key iv. true;
  encrypt_init = λ key iv. true;
  aes_decrypt = λ key iv input. some (unpad input);
  aes_encrypt = λ key iv input. some (pad_front input);
  rsa_oaep_decrypt = λ der input. plain (replicate 64 3);
}

pub toy-HmacLaws : HmacLaws toy
unfolding toy
toy-HmacLaws = record {
  mac = checksum;
  total = λ key input. refl;
  length_mac = λ key input. length-replicate 32 ((sum key + sum input) % 256);
  mac-IsBytes = λ key input. replicate-IsBytes 32 ((sum key + sum input) % 256) (omega arith);
}

length-pad_front :
    (input : Bytes) → length (pad_front input) ≡ 16 - length input % 16 + length input
unfolding pad_front
length-pad_front input = omega (
  arith,
  length-append (replicate (16 - length input % 16) (16 - length input % 16)) input,
  length-replicate (16 - length input % 16) (16 - length input % 16),
)

pub toy-AesLaws : AesLaws toy
unfolding toy
toy-AesLaws = record {
  ciphertext = λ key iv input. pad_front input;
  can_encrypt = λ key iv hk hi. refl;
  can_decrypt = λ key iv hk hi. refl;
  encrypt = λ key iv input hk hi. refl;
  decrypt = λ key iv input hk hi. ap some (unpad-pad_front input);
  some_block = λ key iv input. omega (arith, length-pad_front input);
  whole_blocks = λ key iv input. omega (arith, length-pad_front input);
  ciphertext-IsBytes = λ key iv input h.
      All-append IsByte (replicate (16 - length input % 16) (16 - length input % 16)) input
        (replicate-IsBytes _ _ (omega arith)) h;
}
