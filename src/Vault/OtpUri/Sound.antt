-- ===== src/Vault/OtpUri/Sound.antt =====
-- What an accepted one-time secret holds.
use harbour_leyni.Prelude.{
  ℕ, ◌+◌, ◌≤◌, ◌<◌, ◌^◌, ◌≡◌, refl, subst, sym, arith, ltb, ◌&&◌, true, false, Bool-cases, List, [],
  ◌∷◌, ◌⊎◌, inl, inr, Option-cases, Bytes, codes, bytes_equal, is_empty, length, length-of_is_empty,
  drop, take,
}
use harbour_leyni.Prelude.Search.{find}
use harbour_leyni.Crypto.EncString.{split_parts}
use harbour_leyni.Vault.Json.{ℤ, pos, negsuc}
use harbour_leyni.Vault.Items.{answer}
use harbour_leyni.Vault.Items.{Answer-cases}
use harbour_leyni.Vault.OtpUri.{
  TotpSpec, default_spec, signed_word, skip_spaces, atoi, set_param, read_param, read_params,
  digits_in_range, check_spec, parse_query, parse_totp_secret,
}

-- Parameters that `totp` takes: none of its guards is met.
pub record IsUsable (spec : TotpSpec) : Type 0 where
  pub period_min : 1 ≤ spec.period
  pub period_max : spec.period < 2 ^ 32
  pub digit_count : ℕ
  pub digits_natural : spec.digits ≡ pos digit_count
  pub digits_min : 6 ≤ digit_count
  pub digits_max : digit_count ≤ 10

abbrev HasPeriod : TotpSpec → Type 0
HasPeriod spec = spec.period < 2 ^ 32

signed_word_max : (text : Bytes) → signed_word text < 2 ^ 32
unfolding signed_word
signed_word_max [] = omega arith
signed_word_max (c ∷ cs) = ground arith

set_param-HasPeriod :
    (key val : Bytes) (spec : TotpSpec) {next : TotpSpec}
    → HasPeriod spec
    → set_param key val spec ≡ answer next
    → HasPeriod next
unfolding set_param atoi
set_param-HasPeriod key val spec {next} h e = ground (arith, signed_word_max (skip_spaces val), h)

read_param-HasPeriod :
    (segment : Bytes) (spec : TotpSpec) {next : TotpSpec}
    → HasPeriod spec
    → read_param segment spec ≡ answer next
    → HasPeriod next
unfolding read_param
read_param-HasPeriod segment spec {next} h e = elim (Option-cases (find b'=' segment)) [
  | inl r ↦ ground (arith, r, h)
  | inr (eq, r) ↦
      set_param-HasPeriod (take eq segment) (drop (eq + 1) segment) spec {next = next} h
        (ground (arith, r))
]

read_params-HasPeriod :
    (segments : List Bytes) (spec : TotpSpec) {next : TotpSpec}
    → HasPeriod spec
    → read_params segments spec ≡ answer next
    → HasPeriod next
unfolding read_params
read_params-HasPeriod [] spec h e = ground (arith, h)
read_params-HasPeriod (segment ∷ segments) spec {next} h e =
    elim (Answer-cases (read_param segment spec)) [
      | inl (s, r) ↦
          read_params-HasPeriod segments s {next = next} (read_param-HasPeriod segment spec h r)
            (ground (arith, r))
      | inr (f, r) ↦ absurd (ground (arith, r))
    ]

usable_digits : (d : ℤ) → digits_in_range d ≡ true → (n : ℕ) × (d ≡ pos n) × (6 ≤ n) × (n ≤ 10)
usable_digits (pos n) h = (n, refl, ground (arith, h), ground (arith, h))
usable_digits (negsuc n) h = cc h

usable :
    (spec : TotpSpec)
    → HasPeriod spec
    → ltb 0 spec.period && digits_in_range spec.digits ≡ true
    → IsUsable spec
usable spec h good =
    let (n, is_n, low, high) = usable_digits spec.digits (ground (arith, good)) in
    record {
      period_min = ground (arith, good);
      period_max = h;
      digit_count = n;
      digits_natural = is_n;
      digits_min = low;
      digits_max = high;
    }

check_spec-IsUsable :
    (spec : TotpSpec) {next : TotpSpec}
    → HasPeriod spec
    → check_spec spec ≡ answer next
    → (1 ≤ length next.base32_secret) × IsUsable next
unfolding check_spec
check_spec-IsUsable spec {next} h e = elim (Bool-cases (is_empty spec.base32_secret)) [
  | inl missing ↦ absurd (ground (arith, missing))
  | inr there ↦ elim (Bool-cases (ltb 0 spec.period && digits_in_range spec.digits)) [
    | inr bad ↦ absurd (ground (arith, there, bad))
    | inl good ↦
        let same : spec ≡ next = ground (arith, there, good) in
        subst (λ (s : TotpSpec). (1 ≤ length s.base32_secret) × IsUsable s) same
          (length-of_is_empty spec.base32_secret there, usable spec h good)
  ]
]

parse_query-IsUsable :
    (query : Bytes) {spec : TotpSpec}
    → parse_query query ≡ answer spec
    → (1 ≤ length spec.base32_secret) × IsUsable spec
unfolding parse_query
parse_query-IsUsable query {spec} e =
    elim (Answer-cases (read_params (split_parts b'&' [] query) default_spec)) [
      | inr (f, r) ↦ absurd (ground (arith, r))
      | inl (s, r) ↦
          check_spec-IsUsable s {next = spec}
            (read_params-HasPeriod (split_parts b'&' [] query) default_spec (omega arith) r)
            (ground (arith, r))
    ]

plain-IsUsable : (raw : Bytes) → IsUsable (record default_spec { base32_secret = raw })
plain-IsUsable raw = record {
  period_min = omega arith;
  period_max = omega arith;
  digit_count = 6;
  digits_natural = refl;
  digits_min = omega arith;
  digits_max = omega arith;
}

-- What an accepted text gives: a text that is no otpauth:// address, itself with the defaults; an
-- address, a secret that is not empty.
abbrev pub IsReadFrom : Bytes → TotpSpec → Type 0
IsReadFrom raw spec =
    ((bytes_equal (take 10 raw) (codes "otpauth://") ≡ false)
      × (spec ≡ record default_spec { base32_secret = raw }))
    ⊎ ((bytes_equal (take 10 raw) (codes "otpauth://") ≡ true) × (1 ≤ length spec.base32_secret))

-- A text that is accepted does not begin with "steam://". If it begins with "otpauth://", it gives a
-- secret that is not empty, and otherwise the text itself as the secret, with the default parameters.
-- The period is from 1 to 2^32 - 1 and there are 6 to 10 digits, as the one-time codes want them.
pub parse_totp_secret-IsUsable :
    (raw : Bytes) {spec : TotpSpec}
    → parse_totp_secret raw ≡ answer spec
    → (bytes_equal (take 8 raw) (codes "steam://") ≡ false) × IsReadFrom raw spec × IsUsable spec
unfolding parse_totp_secret
parse_totp_secret-IsUsable raw {spec} e =
    elim (Bool-cases (bytes_equal (take 8 raw) (codes "steam://"))) [
      | inl steam ↦ absurd (ground (arith, steam))
      | inr no_steam ↦ elim (Bool-cases (bytes_equal (take 10 raw) (codes "otpauth://"))) [
        | inr text ↦
            let same : (record default_spec { base32_secret = raw }) ≡ spec =
              ground (arith, no_steam, text) in
            (no_steam, inl (text, sym same), subst IsUsable same (plain-IsUsable raw))
        | inl address ↦ elim (Option-cases (find b'?' raw)) [
          | inl r ↦ absurd (ground (arith, no_steam, address, r))
          | inr (at, r) ↦
              let parts =
                parse_query-IsUsable (drop (at + 1) raw) {spec = spec}
                  (ground (arith, no_steam, address, r)) in
              (no_steam, inr (address, parts.0), parts.1)
        ]
      ]
    ]
