-- ===== src/Api/ServerConfig.antt =====
-- src/api/serverconfig.{h,cpp}: where the two halves of a server are.
use harbour_leyni.Prelude.{
  ℕ, zero, suc, ◌+◌, ◌≤◌, ◌≡◌, refl, ap, sym, ◌∙◌, arith, ◌==◌, ==_iff, Bool, true, false, [], ◌∷◌,
  ◌++◌, Bytes, codes, length, All, All-append, either, if◌then◌else◌,
}
use mathlib.Core.List.{append_assoc, append-nil}
use harbour_leyni.Vault.Qt.{Qt}

pub record ServerConfig : Type 0 where
  pub identity_base : Bytes
  pub api_base : Bytes

abbrev pub cloud_us : ServerConfig
cloud_us = record {
  identity_base = codes "https://identity.bitwarden.com";
  api_base = codes "https://api.bitwarden.com";
}

abbrev pub cloud_eu : ServerConfig
cloud_eu = record {
  identity_base = codes "https://identity.bitwarden.eu";
  api_base = codes "https://api.bitwarden.eu";
}

unfoldable pub ends_with : ℕ → Bytes → Bool
ends_with c [] = false
ends_with c (x ∷ []) = x == c
ends_with c (x ∷ y ∷ xs) = ends_with c (y ∷ xs)

-- `chop(1)`
unfoldable pub chop : Bytes → Bytes
chop [] = []
chop (x ∷ []) = []
chop (x ∷ y ∷ xs) = x ∷ chop (y ∷ xs)

-- The loop, as many rounds as there are characters.
unfoldable pub chop_slashes : ℕ → Bytes → Bytes
chop_slashes zero base = base
chop_slashes (suc rounds) base =
    let shorter = chop_slashes rounds (chop base) in if ends_with b'/' base then shorter else base

unfoldable pub self_hosted : Qt → Bytes → ServerConfig
self_hosted qt base_url =
    let trimmed = qt.trimmed base_url in
    let base = chop_slashes (length trimmed) trimmed in
    record { identity_base = base ++ codes "/identity"; api_base = base ++ codes "/api" }

abbrev pub prelogin_url : ServerConfig → Bytes
prelogin_url config = config.identity_base ++ codes "/accounts/prelogin"

abbrev pub token_url : ServerConfig → Bytes
token_url config = config.identity_base ++ codes "/connect/token"

abbrev pub sync_url : ServerConfig → Bytes
sync_url config = config.api_base ++ codes "/sync"

abbrev pub send_email_login_url : ServerConfig → Bytes
send_email_login_url config = config.api_base ++ codes "/two-factor/send-email-login"

abbrev pub ciphers_url : ServerConfig → Bytes
ciphers_url config = config.api_base ++ codes "/ciphers"

abbrev pub cipher_url : ServerConfig → Bytes → Bytes
cipher_url config id = config.api_base ++ (codes "/ciphers/" ++ id)

length-chop : (xs : Bytes) → length (chop xs) + 1 ≤ length xs + (if ends_with b'/' xs then 0 else 1)
unfolding chop ends_with
length-chop [] = omega arith
length-chop (x ∷ []) = ground arith
length-chop (x ∷ y ∷ xs) = omega (arith, length-chop (y ∷ xs))

-- What ends with the character is what `chop` leaves, and the character.
chop-append : (c : ℕ) (xs : Bytes) → ends_with c xs ≡ true → xs ≡ chop xs ++ c ∷ []
unfolding chop ends_with
chop-append c [] h = cc h
chop-append c (x ∷ []) h = ap (λ (y : ℕ). y ∷ []) ((==_iff x c).0 h)
chop-append c (x ∷ y ∷ xs) h = ap (λ (ys : Bytes). x ∷ ys) (chop-append c (y ∷ xs) h)

-- Nothing but slashes was behind `left`.
abbrev pub LosesSlashes : Bytes → Bytes → Type 0
LosesSlashes base left =
    (ends_with b'/' left ≡ false)
    × ((slashes : Bytes) × All (λ c. c ≡ b'/') slashes × (base ≡ left ++ slashes))

-- The loop takes all slashes off the end, and nothing else.
pub chop_slashes_lem :
    (rounds : ℕ) (base : Bytes)
    → length base ≤ rounds
    → LosesSlashes base (chop_slashes rounds base)
unfolding chop_slashes ends_with
chop_slashes_lem zero [] h = (refl, ([], tt, refl))
chop_slashes_lem zero (x ∷ base) h = absurd (omega (arith, h))
chop_slashes_lem (suc rounds) base h =
    either (LosesSlashes base) (ends_with b'/' base)
      (λ e.
        let shorter : length (chop base) ≤ rounds = ground (arith, h, length-chop base, e) in
        let (none_left, (slashes, are_slashes, chopped)) =
          chop_slashes_lem rounds (chop base) shorter in
        (
          none_left,
          (
            slashes ++ b'/' ∷ [],
            All-append (λ c. c ≡ b'/') slashes (b'/' ∷ []) are_slashes (refl, tt),
            chop-append b'/' base e
                ∙ ap (λ (s : Bytes). s ++ b'/' ∷ []) chopped
                ∙ append_assoc _ slashes _,
          ),
        ))
      (λ e. (e, ([], tt, sym (append-nil base))))

-- Of the trimmed address only the slashes at its end are lost, and both halves of the server are
-- below what is left, which ends with no slash.
pub self_hosted_lem :
    (qt : Qt) (base_url : Bytes)
    → (left : Bytes) × LosesSlashes (qt.trimmed base_url) left
      × ((self_hosted qt base_url).identity_base ≡ left ++ codes "/identity")
      × ((self_hosted qt base_url).api_base ≡ left ++ codes "/api")
unfolding self_hosted
self_hosted_lem qt base_url =
    let trimmed = qt.trimmed base_url in
    (
      chop_slashes (length trimmed) trimmed,
      chop_slashes_lem (length trimmed) trimmed (omega arith),
      refl,
      refl,
    )
