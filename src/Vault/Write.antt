-- ===== src/Vault/Write.antt =====
-- The bodies of src/vault/vault.cpp that create and change an item. The fields are those of the
-- editor, as `value(…)` reads them; an iv is what `RAND_bytes` gives for the text it is named for.
pub mod Edits
pub mod Steps
pub mod Survives
use harbour_leyni.Prelude.{
  ℕ, Bool, not, List, [], ◌∷◌, Option, none, some, Bytes, codes, is_empty, if◌then◌else◌, Result,
  err, ok, ◌>>=◌,
}
use harbour_leyni.Crypto.Primitives.{Primitives}
use harbour_leyni.Crypto.Keys.{SymmetricKey}
use harbour_leyni.Crypto.EncString
use harbour_leyni.Crypto.Cipher.{encrypt_aes256_cbc_hmac}
use harbour_leyni.Vault.Json.{
  pos, Json, null, boolean, number, string, array, object, Items, nil, cons, Fields, end, contains,
  insert_field, remove_field, to_string, to_object,
}
use harbour_leyni.Vault.Qt.{Qt}
use harbour_leyni.Vault.Items.{
  CipherType, EncryptedCipher, because, thrown, Answer, answer, failure,
}
use harbour_leyni.Vault.SyncParser.{capitalize, value_of}
use harbour_leyni.Vault.State.{Vault}
use harbour_leyni.Vault.Access.{find_cipher, cipher_key}

pub record EditedItem : Type 0 where
  pub name : Bytes
  pub notes : Bytes
  pub folder_id : Bytes
  pub favorite : Bool
  pub username : Bytes
  pub password : Bytes
  pub totp : Bytes
  pub uri : Bytes

pub record Ivs : Type 0 where
  pub name : Option Bytes
  pub notes : Option Bytes
  pub username : Option Bytes
  pub password : Option Bytes
  pub totp : Option Bytes
  pub uri : Option Bytes

unfoldable pub type_code : CipherType → ℕ
type_code CipherType.login = 1
type_code CipherType.secure_note = 2
type_code CipherType.card = 3
type_code CipherType.identity = 4

-- `isNull` for an empty text
unfoldable pub text_or_null : Bytes → Json
text_or_null s = if is_empty s then null else string s

-- The entries of an array.
abbrev pub to_items : Json → Items
to_items (array vs) = vs
to_items _ = nil

-- `first` with the encrypted text, and with a "match".
unfoldable pub patch_uri : Bytes → Fields → Fields
patch_uri enc first =
    let patched = insert_field (codes "uri") (string enc) first in
    if not (contains patched (codes "match"))
    then insert_field (codes "match") null patched
    else patched

-- The first entry patched, or the only one.
unfoldable pub patch_uris : Bytes → Items → Items
patch_uris enc nil = cons (object (patch_uri enc end)) nil
patch_uris enc (cons v rest) = cons (object (patch_uri enc (to_object v))) rest

-- Without a text, at most one entry is cleared.
unfoldable pub clear_uris : Items → Fields → Fields
clear_uris nil login = insert_field (codes "uris") null login
clear_uris (cons v nil) login = insert_field (codes "uris") null login
clear_uris (cons v (cons w rest)) login = login

abbrev pub response_only : List Bytes
response_only =
    codes "object"
    ∷ codes "id"
    ∷ codes "revisionDate"
    ∷ codes "creationDate"
    ∷ codes "deletedDate"
    ∷ codes "edit"
    ∷ codes "viewPassword"
    ∷ codes "permissions"
    ∷ codes "collectionIds"
    ∷ codes "organizationUseTotp"
    ∷ []

unfoldable pub remove_keys : List Bytes → Fields → Fields
remove_keys [] body = body
remove_keys (k ∷ keys) body = remove_keys keys (remove_field (capitalize k) (remove_field k body))

unfoldable pub with_revision : Bytes → Fields → Fields
with_revision revision body =
    if not (is_empty revision)
    then insert_field (codes "lastKnownRevisionDate") (string revision) body
    else body

module _ (p : Primitives) where
  unfoldable pub encrypt_field : Option Bytes → Bytes → SymmetricKey → Result Bytes
  encrypt_field iv plaintext key =
      if is_empty plaintext
      then ok []
      else encrypt_aes256_cbc_hmac p iv plaintext key >>= EncString.serialize

  unfoldable pub enc_or_null : Option Bytes → Bytes → SymmetricKey → Result Json
  enc_or_null iv plaintext key = do enc ← encrypt_field iv plaintext key; ok (text_or_null enc)

  unfoldable pub login_uris : EditedItem → Ivs → Fields → Fields → SymmetricKey → Result Fields
  login_uris fields ivs existing login key =
      let uris = to_items (value_of existing (codes "uris")) in
      if not (is_empty fields.uri)
      then (encrypt_field ivs.uri fields.uri key >>= λ enc.
          ok (insert_field (codes "uris") (array (patch_uris enc uris)) login))
      else ok (clear_uris uris login)

  unfoldable pub build_login_object : EditedItem → Ivs → Fields → SymmetricKey → Result Fields
  build_login_object fields ivs existing key = do
    username ← enc_or_null ivs.username fields.username key
    password ← enc_or_null ivs.password fields.password key
    totp ← enc_or_null ivs.totp fields.totp key
    login_uris fields ivs existing
        (insert_field (codes "totp") totp (
          insert_field (codes "password") password
            (insert_field (codes "username") username existing)))
        key

  -- What the two bodies have in common: the fields of every item.
  unfoldable pub common_fields : EditedItem → Ivs → SymmetricKey → Fields → Result Fields
  common_fields fields ivs key body = do
    name ← encrypt_field ivs.name fields.name key
    notes ← enc_or_null ivs.notes fields.notes key
    ok (
        insert_field (codes "folderId") (text_or_null fields.folder_id) (
          insert_field (codes "favorite") (boolean fields.favorite)
            (insert_field (codes "notes") notes (insert_field (codes "name") (string name) body))))

  -- The part of the type; `none` is a type that is not supported.
  unfoldable pub typed_body :
      CipherType → EditedItem → Ivs → SymmetricKey → Fields → Result (Option Fields)
  typed_body CipherType.login fields ivs key body = do
    login ← build_login_object fields ivs end key
    ok (some (insert_field (codes "login") (object login) body))
  typed_body CipherType.secure_note fields ivs key body =
      let note = insert_field (codes "type") (number (pos 0)) end in
      ok (some (insert_field (codes "secureNote") (object note) body))
  typed_body _ fields ivs key body = ok none

  unfoldable pub create_object :
      CipherType → EditedItem → Ivs → SymmetricKey → Result (Option Fields)
  create_object type fields ivs key = do
    body ←
        common_fields fields ivs key
          (insert_field (codes "type") (number (pos (type_code type))) end)
    typed_body type fields ivs key (insert_field (codes "organizationId") null body)

  unfoldable pub build_create_body : Qt → CipherType → EditedItem → Ivs → Vault → Answer Bytes
  build_create_body qt type fields ivs v =
      if v.locked
      then failure (because "vault is locked")
      else if is_empty fields.name
      then failure (because "name is required")
      else elim (create_object type fields ivs v.user_key) [
        | err e ↦ failure (thrown "%1" e)
        | ok none ↦ failure (because "unsupported item type")
        | ok (some body) ↦ answer (qt.to_json body)
      ]

  -- The object of a login item, in place of the one that is there.
  unfoldable pub update_login :
      CipherType → EditedItem → Ivs → SymmetricKey → Fields → Result Fields
  update_login CipherType.login fields ivs key body = do
    login ← build_login_object fields ivs (to_object (value_of body (codes "login"))) key
    ok (insert_field (codes "login") (object login) (remove_field (codes "Login") body))
  update_login _ fields ivs key body = ok body

  unfoldable pub update_object : EncryptedCipher → EditedItem → Ivs → SymmetricKey → Result Fields
  update_object cipher fields ivs key = do
    common ← common_fields fields ivs key (remove_keys response_only cipher.raw)
    body ← update_login cipher.type fields ivs key common
    ok (with_revision (to_string (value_of cipher.raw (codes "revisionDate"))) body)

  unfoldable pub update_body : Qt → EncryptedCipher → EditedItem → Ivs → SymmetricKey → Answer Bytes
  update_body qt cipher fields ivs key = elim (update_object cipher fields ivs key) [
    | err e ↦ failure (thrown "%1" e)
    | ok body ↦ answer (qt.to_json body)
  ]

  unfoldable pub build_update_body : Qt → Bytes → EditedItem → Ivs → Vault → Answer Bytes
  build_update_body qt item_id fields ivs v =
      if v.locked then failure (because "vault is locked") else elim (find_cipher v item_id) [
        | none ↦ failure (because "item not found")
        | some cipher ↦
            if is_empty fields.name
            then failure (because "name is required")
            else elim (cipher_key p v cipher) [
              | failure f ↦ failure f
              | answer key ↦ update_body qt cipher fields ivs key
            ]
      ]
