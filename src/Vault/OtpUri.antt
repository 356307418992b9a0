-- ===== src/Vault/OtpUri.antt =====
-- `parseTotpSecret` of src/vault/vault.cpp: a plain base32 secret or an otpauth:// address.
pub mod Sound
use harbour_leyni.Prelude.{
  ℕ, zero, suc, ◌+◌, ◌-◌, ◌%◌, ◌^◌, leb, ltb, ◌==◌, Bool, true, false, ◌&&◌, ◌||◌, List, [], ◌∷◌,
  Option, none, some, Bytes, codes, bytes_equal, is_empty, take, drop, if◌then◌else◌,
}
use Prim.Native.Nat.{min}
use harbour_leyni.Prelude.Search.{find}
use harbour_leyni.Prelude.Decimal.{is_digit, stoi}
use harbour_leyni.Crypto.Primitives.{Digest, sha1, sha256, sha512}
use harbour_leyni.Crypto.EncString.{split_parts}
use harbour_leyni.Crypto.Totp.{TotpAlgorithm}
use harbour_leyni.Vault.Json.{ℤ, pos, negsuc}
use harbour_leyni.Vault.Int.{as_int}
use harbour_leyni.Vault.Items.{because, Answer, answer, failure}

-- `period` is a `uint32_t`.
pub record TotpSpec : Type 0 where
  pub base32_secret : Bytes
  pub period : ℕ
  pub digits : ℤ
  pub algorithm : TotpAlgorithm

abbrev pub default_spec : TotpSpec
default_spec = record { base32_secret = []; period = 30; digits = pos 6; algorithm = sha1 }

unfoldable pub skip_spaces : Bytes → Bytes
skip_spaces [] = []
skip_spaces (c ∷ cs) = if c == b' ' || (leb 9 c && leb c 13) then skip_spaces cs else c ∷ cs

unfoldable pub digits_of : Bytes → Bytes
digits_of [] = []
digits_of (c ∷ cs) = let rest = digits_of cs in if is_digit c then c ∷ rest else []

-- The 32 bits of `std::atoi`, which is `(int)strtol`, with its 64-bit bounds.
unfoldable pub signed_word : Bytes → ℕ
signed_word [] = 0
signed_word (c ∷ cs) =
    if c == b'-'
    then (2 ^ 32 - min (stoi 0 (digits_of cs)) (2 ^ 63) % 2 ^ 32) % 2 ^ 32
    else min (stoi 0 (digits_of (if c == b'+' then cs else c ∷ cs))) (2 ^ 63 - 1) % 2 ^ 32

unfoldable pub atoi : Bytes → ℕ
atoi text = signed_word (skip_spaces text)

unfoldable pub algorithm_of : Bytes → Option TotpAlgorithm
algorithm_of val =
    if bytes_equal val (codes "SHA1") || bytes_equal val (codes "sha1")
    then some sha1
    else if bytes_equal val (codes "SHA256") || bytes_equal val (codes "sha256")
    then some sha256
    else if bytes_equal val (codes "SHA512") || bytes_equal val (codes "sha512")
    then some sha512
    else none

unfoldable pub set_param : Bytes → Bytes → TotpSpec → Answer TotpSpec
set_param key val spec =
    if bytes_equal key (codes "secret")
    then answer (record spec { base32_secret = val })
    else if bytes_equal key (codes "period")
    then answer (record spec { period = atoi val })
    else if bytes_equal key (codes "digits")
    then answer (record spec { digits = as_int (atoi val) })
    else if bytes_equal key (codes "algorithm")
    then elim (algorithm_of val) [
      | none ↦ failure (because "unsupported TOTP algorithm")
      | some algorithm ↦ answer (record spec { algorithm = algorithm })
    ]
    else answer spec

-- What stands between two '&': without an '=' it is passed over.
unfoldable pub read_param : Bytes → TotpSpec → Answer TotpSpec
read_param segment spec = elim (find b'=' segment) [
  | none ↦ answer spec
  | some eq ↦ set_param (take eq segment) (drop (eq + 1) segment) spec
]

unfoldable pub read_params : List Bytes → TotpSpec → Answer TotpSpec
read_params [] spec = answer spec
read_params (segment ∷ segments) spec = elim (read_param segment spec) [
  | failure f ↦ failure f
  | answer next ↦ read_params segments next
]

abbrev pub digits_in_range : ℤ → Bool
digits_in_range (pos n) = leb 6 n && leb n 10
digits_in_range (negsuc n) = false

unfoldable pub check_spec : TotpSpec → Answer TotpSpec
check_spec spec =
    if is_empty spec.base32_secret
    then failure (because "otpauth URI has no secret")
    else if ltb 0 spec.period && digits_in_range spec.digits
    then answer spec
    else failure (because "otpauth URI has invalid parameters")

unfoldable pub parse_query : Bytes → Answer TotpSpec
parse_query query = elim (read_params (split_parts b'&' [] query) default_spec) [
  | failure f ↦ failure f
  | answer spec ↦ check_spec spec
]

unfoldable pub parse_totp_secret : Bytes → Answer TotpSpec
parse_totp_secret raw =
    if bytes_equal (take 8 raw) (codes "steam://")
    then failure (because "Steam TOTP is not supported")
    else if bytes_equal (take 10 raw) (codes "otpauth://")
    then elim (find b'?' raw) [
      | none ↦ failure (because "otpauth URI has no parameters")
      | some query_start ↦ parse_query (drop (query_start + 1) raw)
    ]
    else answer (record default_spec { base32_secret = raw })
