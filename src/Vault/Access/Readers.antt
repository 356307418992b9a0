-- ===== src/Vault/Access/Readers.antt =====
-- What the readers of src/vault/vault.cpp answer, and what they give back of an encrypted secret.
use harbour_leyni.Prelude.{
  ◌≡◌, refl, subst, arith, false, [], ◌∷◌, some, Bytes, IsBytes, is_empty, length, Result, err, ok,
  ◌>>=◌, ◌⊎◌, inl, inr, either, maybe, if◌then◌else◌,
}
use harbour_leyni.Prelude.Search.{find}
use harbour_leyni.Crypto.Primitives.{Primitives, HmacLaws, AesLaws}
use harbour_leyni.Crypto.Keys.{SymmetricKey, IsKey}
use harbour_leyni.Crypto.EncString
use harbour_leyni.Crypto.EncString.{EncString, parse}
use harbour_leyni.Crypto.EncString.RoundTrip.{parse-serialize}
use harbour_leyni.Crypto.Cipher.{decrypt_aes256_cbc_hmac, encrypt_aes256_cbc_hmac_with_iv}
use harbour_leyni.Crypto.Cipher.RoundTrip.{decrypt-encrypt}
use harbour_leyni.Vault.Qt.{Qt}
use harbour_leyni.Vault.Items.{EncryptedCipher, Answer, answer, failure, answered}
use harbour_leyni.Vault.State.{Vault}
use harbour_leyni.Vault.Access.{
  find_cipher, owner_key, decrypt_bytes, decrypt_to_string, cipher_key, with_key, item_password,
  item_notes, item_totp_secret, caught,
}

-- The vault is open and has an item with this id and its key, and the shown text is what the text of
-- the item decrypts to under the key, read as UTF-8.
abbrev pub Shows : Primitives → Qt → Vault → Bytes → (EncryptedCipher → Bytes) → Bytes → Type 0
Shows p qt v item_id text_of shown =
    (v.locked ≡ false)
    × ((cipher : EncryptedCipher) × (key : SymmetricKey) × (find_cipher v item_id ≡ some cipher)
        × (cipher_key p v cipher ≡ answer key)
        × (decrypt_to_string p qt (text_of cipher) key ≡ ok shown))

-- What a reader may answer: such a text, or, of an open vault, nothing.
abbrev pub IsTold :
    Primitives → Qt → Vault → Bytes → (EncryptedCipher → Bytes) → Answer Bytes → Type 0
IsTold p qt v item_id text_of (failure f) = Unit
IsTold p qt v item_id text_of (answer shown) =
    ((v.locked ≡ false) × (shown ≡ [])) ⊎ Shows p qt v item_id text_of shown

module _ (p : Primitives) (qt : Qt) (v : Vault) (item_id : Bytes)
    (text_of : EncryptedCipher → Bytes) where
  caught-IsTold :
      (cipher : EncryptedCipher) (key : SymmetricKey)
      → v.locked ≡ false
      → find_cipher v item_id ≡ some cipher
      → cipher_key p v cipher ≡ answer key
      → (r : Result Bytes) → decrypt_to_string p qt (text_of cipher) key ≡ r
      → IsTold p qt v item_id text_of (caught r)
  caught-IsTold cipher key unlocked found has_key (err e) same = tt
  caught-IsTold cipher key unlocked found has_key (ok shown) same =
      inr (unlocked, (cipher, key, found, has_key, same))

  decrypted-IsTold :
      (cipher : EncryptedCipher)
      → v.locked ≡ false
      → find_cipher v item_id ≡ some cipher
      → IsTold p qt v item_id text_of
          (with_key p v cipher λ key. caught (decrypt_to_string p qt (text_of cipher) key))
  unfolding with_key
  decrypted-IsTold cipher unlocked found =
      answered (IsTold p qt v item_id text_of) (cipher_key p v cipher)
        (λ key has_key. caught-IsTold cipher key unlocked found has_key _ refl) (λ f refusal. tt)

  -- The text of an item that is there, or a stand-in for an empty one
  item-IsTold :
      (missing : Answer Bytes) (cipher : EncryptedCipher)
      → IsTold p qt v item_id text_of missing
      → v.locked ≡ false
      → find_cipher v item_id ≡ some cipher
      → IsTold p qt v item_id text_of (
          if is_empty (text_of cipher)
          then missing
          else (with_key p v cipher λ key. caught (decrypt_to_string p qt (text_of cipher) key)))
  item-IsTold missing cipher told unlocked found =
      either (IsTold p qt v item_id text_of) (is_empty (text_of cipher)) (λ none_there. told)
        (λ some_there. decrypted-IsTold cipher unlocked found)

module _ (p : Primitives) (qt : Qt) (v : Vault) (item_id : Bytes) where
  -- Whatever the readers of a password, of notes and of a one-time secret answer, it is empty or what
  -- that text of the item with the id decrypts to under the key of the item, read as UTF-8; and the
  -- vault is open: a locked one answers with an error.
  pub readers-IsTold :
      IsTold p qt v item_id (λ cipher. cipher.login.password) (item_password p qt v item_id)
      × IsTold p qt v item_id (λ cipher. cipher.notes) (item_notes p qt v item_id)
      × IsTold p qt v item_id (λ cipher. cipher.login.totp) (item_totp_secret p qt v item_id)
  unfolding item_password item_notes item_totp_secret
  readers-IsTold = (
    either (IsTold p qt v item_id _) v.locked (λ shut. tt)
        (λ unlocked.
          maybe (IsTold p qt v item_id _) (find_cipher v item_id) (λ none_there. tt)
            (λ cipher found.
              item-IsTold p qt v item_id (λ (c : EncryptedCipher). c.login.password) _ cipher tt
                unlocked found)),
    either (IsTold p qt v item_id _) v.locked (λ shut. tt)
        (λ unlocked.
          maybe (IsTold p qt v item_id _) (find_cipher v item_id)
            (λ none_there. inl (unlocked, refl))
            (λ cipher found.
              item-IsTold p qt v item_id (λ (c : EncryptedCipher). c.notes) _ cipher
                (inl (unlocked, refl)) unlocked found)),
    either (IsTold p qt v item_id _) v.locked (λ shut. tt)
        (λ unlocked.
          maybe (IsTold p qt v item_id _) (find_cipher v item_id)
            (λ none_there. inl (unlocked, refl))
            (λ cipher found.
              item-IsTold p qt v item_id (λ (c : EncryptedCipher). c.login.totp) _ cipher
                (inl (unlocked, refl)) unlocked found)),
  )

-- An item of the user with no key of its own is read under the user key.
personal_key :
    (p : Primitives) (v : Vault) (cipher : EncryptedCipher)
    → cipher.organization_id ≡ []
    → cipher.key ≡ []
    → cipher_key p v cipher ≡ answer v.user_key
unfolding cipher_key owner_key
personal_key p v cipher org own = ground (arith, org, own)

is_empty-parse : (text : Bytes) {enc : EncString} → parse text ≡ ok enc → is_empty text ≡ false
unfolding parse find
is_empty-parse [] h = absurd (cc h)
is_empty-parse (c ∷ text) h = refl

decrypt_to_string-eq :
    (p : Primitives) (qt : Qt) (text : Bytes) (key : SymmetricKey) {enc : EncString}
    {plaintext : Bytes}
    → parse text ≡ ok enc
    → decrypt_aes256_cbc_hmac p enc key ≡ ok plaintext
    → decrypt_to_string p qt text key ≡ ok (qt.from_utf8 plaintext)
unfolding decrypt_to_string decrypt_bytes
decrypt_to_string-eq p qt text key parsed decrypts = ground (arith, parsed, decrypts)

shows :
    (p : Primitives) (qt : Qt) (v : Vault) (item_id : Bytes) (cipher : EncryptedCipher)
    {key : SymmetricKey} {shown : Bytes}
    → v.locked ≡ false
    → find_cipher v item_id ≡ some cipher
    → cipher_key p v cipher ≡ answer key
    → is_empty cipher.login.password ≡ false
    → decrypt_to_string p qt cipher.login.password key ≡ ok shown
    → item_password p qt v item_id ≡ answer shown
unfolding item_password with_key
shows p qt v item_id cipher unlocked found has_key there reads =
    ground (arith, unlocked, found, has_key, there, reads)

module _ (p : Primitives) (macs : HmacLaws p) (aes : AesLaws p) (qt : Qt) where
  -- With laws for HMAC and cipher, a well-sized user key and a 16-byte iv: the bytes that were
  -- encrypted under the user key to the password of an item are the text that an unlocked vault
  -- shows as its password, read as UTF-8; for an item of the user with no key of its own, the
  -- first with its id.
  pub item_password-encrypt :
      (v : Vault) (item_id iv plaintext : Bytes) (cipher : EncryptedCipher)
      → IsKey v.user_key
      → v.locked ≡ false
      → find_cipher v item_id ≡ some cipher
      → cipher.organization_id ≡ []
      → cipher.key ≡ []
      → length iv ≡ 16
      → IsBytes iv
      → IsBytes plaintext
      → (encrypt_aes256_cbc_hmac_with_iv p plaintext v.user_key iv >>= EncString.serialize)
        ≡ ok cipher.login.password
      → item_password p qt v item_id ≡ answer (qt.from_utf8 plaintext)
  item_password-encrypt v item_id iv plaintext cipher key unlocked found org own iv_size iv_bytes
        bytes written =
      let (enc, sealed, two, decrypts) =
        decrypt-encrypt p macs aes plaintext v.user_key iv key iv_size bytes iv_bytes in
      let (text, serialized, parsed) = parse-serialize enc two in
      let same : text ≡ cipher.login.password = ground (arith, written, sealed, serialized) in
      let reads = decrypt_to_string-eq p qt text v.user_key parsed decrypts in
      shows p qt v item_id cipher unlocked found (personal_key p v cipher org own)
        (subst (λ (t : Bytes). is_empty t ≡ false) same (is_empty-parse text parsed))
        (subst (λ (t : Bytes). decrypt_to_string p qt t v.user_key ≡ ok (qt.from_utf8 plaintext))
          same reads)
