-- ===== src/Vault/Access.antt =====
-- src/vault/vault.cpp: the key of an item and the secrets that are decrypted on demand.
pub mod Readers
use harbour_leyni.Prelude.{
  ℕ, zero, suc, ◌+◌, ◌-◌, ◌%◌, Bool, true, false, ◌||◌, not, List, [], ◌∷◌, ◌++◌, Option, none,
  some, Bytes, bytes_equal, is_empty, if◌then◌else◌, Result, err, ok, ◌>>=◌, CryptoError,
}
use harbour_leyni.Crypto.Primitives.{Primitives}
use harbour_leyni.Crypto.Keys.{SymmetricKey, symmetric_key_from_bytes}
use harbour_leyni.Crypto.EncString.{parse}
use harbour_leyni.Crypto.Cipher.{decrypt_aes256_cbc_hmac}
use harbour_leyni.Crypto.Totp.{base32_decode, totp}
use harbour_leyni.Vault.Qt.{Qt}
use harbour_leyni.Vault.Items.{
  EncryptedField, EncryptedCipher, SyncData, Failure, because, thrown, Answer, answer, failure,
}
use harbour_leyni.Vault.Maps.{lookup}
use harbour_leyni.Vault.State.{Vault}
use harbour_leyni.Vault.OtpUri.{TotpSpec, parse_totp_secret}
use harbour_leyni.Vault.Int.{as_int}
use harbour_leyni.Vault.Json.{ℤ, pos, negsuc}

unfoldable pub find_in : List EncryptedCipher → Bytes → Option EncryptedCipher
find_in [] item_id = none
find_in (cipher ∷ ciphers) item_id =
    if bytes_equal cipher.id item_id then some cipher else find_in ciphers item_id

unfoldable pub find_cipher : Vault → Bytes → Option EncryptedCipher
find_cipher v item_id = find_in v.sync_data.ciphers item_id

-- The key of the organization, or the user's.
unfoldable pub owner_key : Vault → EncryptedCipher → Option SymmetricKey
owner_key v cipher =
    if is_empty cipher.organization_id
    then some v.user_key
    else lookup v.org_keys cipher.organization_id

-- A handler whose `catch` makes the message the error.
abbrev pub caught {ℓ} : {A : Type ℓ} → Result A → Answer A
caught (ok a) = answer a
caught (err e) = failure (thrown "%1" e)

module _ (p : Primitives) where
  unfoldable pub decrypt_bytes : Bytes → SymmetricKey → Result Bytes
  decrypt_bytes enc_string key = do enc ← parse enc_string; decrypt_aes256_cbc_hmac p enc key

  unfoldable pub decrypt_to_string : Qt → Bytes → SymmetricKey → Result Bytes
  decrypt_to_string qt enc_string key = do
    decrypted ← decrypt_bytes enc_string key
    ok (qt.from_utf8 decrypted)

  unfoldable pub item_key : Bytes → SymmetricKey → Result SymmetricKey
  item_key enc_string owner = do
    item_key_raw ← decrypt_bytes enc_string owner
    symmetric_key_from_bytes item_key_raw

  unfoldable pub cipher_key : Vault → EncryptedCipher → Answer SymmetricKey
  cipher_key v cipher = elim (owner_key v cipher) [
    | none ↦ failure (because "organization key unavailable for this item")
    | some owner ↦ if is_empty cipher.key then answer owner else elim (item_key cipher.key owner) [
      | ok key ↦ answer key
      | err e ↦ failure (thrown "item key unwrap failed: %1" e)
    ]
  ]

  -- The key of the item and, with it, a text that may fail to decrypt.
  unfoldable pub with_key {ℓ} :
      {A : Type ℓ} → Vault → EncryptedCipher → (SymmetricKey → Answer A) → Answer A
  with_key v cipher next = elim (cipher_key v cipher) [
    | failure f ↦ failure f
    | answer key ↦ next key
  ]

  unfoldable pub item_password : Qt → Vault → Bytes → Answer Bytes
  item_password qt v item_id =
      if v.locked then failure (because "vault is locked") else elim (find_cipher v item_id) [
        | none ↦ failure (because "no password on this item")
        | some cipher ↦
            if is_empty cipher.login.password
            then failure (because "no password on this item")
            else with_key v cipher λ key. caught (decrypt_to_string qt cipher.login.password key)
      ]

  -- An empty text and no error for an item that is not there or has no notes.
  unfoldable pub item_notes : Qt → Vault → Bytes → Answer Bytes
  item_notes qt v item_id =
      if v.locked then failure (because "vault is locked") else elim (find_cipher v item_id) [
        | none ↦ answer []
        | some cipher ↦
            if is_empty cipher.notes
            then answer []
            else with_key v cipher λ key. caught (decrypt_to_string qt cipher.notes key)
      ]

  unfoldable pub item_totp_secret : Qt → Vault → Bytes → Answer Bytes
  item_totp_secret qt v item_id =
      if v.locked then failure (because "vault is locked") else elim (find_cipher v item_id) [
        | none ↦ answer []
        | some cipher ↦
            if is_empty cipher.login.totp
            then answer []
            else with_key v cipher λ key. caught (decrypt_to_string qt cipher.login.totp key)
      ]

  -- The fields of a card or an identity, whose names are no secrets.
  unfoldable pub named_fields :
      Qt → List EncryptedField → SymmetricKey → Result (List (Bytes × Bytes))
  named_fields qt [] key = ok []
  named_fields qt (field ∷ fields) key = do
    val ← decrypt_to_string qt field.value key
    rest ← named_fields qt fields key
    ok ((field.name, val) ∷ rest)

  unfoldable pub decrypt_unless_empty : Qt → Bytes → SymmetricKey → Result Bytes
  decrypt_unless_empty qt enc_string key =
      if is_empty enc_string then ok [] else decrypt_to_string qt enc_string key

  unfoldable pub custom_fields :
      Qt → List EncryptedField → SymmetricKey → Result (List (Bytes × Bytes))
  custom_fields qt [] key = ok []
  custom_fields qt (field ∷ fields) key = do
    name ← decrypt_unless_empty qt field.name key
    val ← decrypt_unless_empty qt field.value key
    rest ← custom_fields qt fields key
    ok ((name, val) ∷ rest)

  unfoldable pub detail_fields : Qt → EncryptedCipher → SymmetricKey → Result (List (Bytes × Bytes))
  detail_fields qt cipher key = do
    cards ← named_fields qt cipher.card_fields key
    identities ← named_fields qt cipher.identity_fields key
    customs ← custom_fields qt cipher.fields key
    ok (cards ++ identities ++ customs)

  unfoldable pub item_detail_fields : Qt → Vault → Bytes → Answer (List (Bytes × Bytes))
  item_detail_fields qt v item_id =
      if v.locked then failure (because "vault is locked") else elim (find_cipher v item_id) [
        | none ↦ failure (because "unknown item")
        | some cipher ↦ with_key v cipher λ key. caught (detail_fields qt cipher key)
      ]

  -- No negative number of digits is left by `check_spec`.
  abbrev digit_count : ℤ → ℕ
  digit_count (pos n) = n
  digit_count (negsuc n) = 0

  -- The code and the seconds that it is good for.
  unfoldable pub code_of : TotpSpec → ℕ → Result (Bytes × ℤ)
  code_of spec unix_time = do
    totp_key ← base32_decode spec.base32_secret
    code ← totp p totp_key unix_time spec.period (digit_count spec.digits) spec.algorithm
    ok (code, as_int (spec.period - unix_time % spec.period))

  unfoldable pub code_of_secret : Bytes → ℕ → Answer (Bytes × ℤ)
  code_of_secret secret_text unix_time = elim (parse_totp_secret secret_text) [
    | failure f ↦ failure f
    | answer spec ↦ caught (code_of spec unix_time)
  ]

  unfoldable pub totp_code : Vault → Bytes → ℕ → Answer (Bytes × ℤ)
  totp_code v item_id unix_time =
      if v.locked then failure (because "vault is locked") else elim (find_cipher v item_id) [
        | none ↦ failure (because "no TOTP secret on this item")
        | some cipher ↦
            if is_empty cipher.login.totp
            then failure (because "no TOTP secret on this item")
            else with_key v cipher λ key. elim (decrypt_bytes cipher.login.totp key) [
              | err e ↦ failure (thrown "%1" e)
              | ok raw_secret ↦ code_of_secret raw_secret unix_time
            ]
      ]
