-- ===== src/Vault/SyncParser.antt =====
-- src/vault/syncparser.cpp: the sync response, read into `SyncData`.
pub mod Sound
use harbour_leyni.Prelude.{
  ℕ, zero, suc, ◌+◌, ◌-◌, Bool, true, false, ◌&&◌, ◌||◌, not, leb, if◌then◌else◌, String, List, [],
  ◌∷◌, ◌++◌, Option, none, some, Bytes, codes, is_empty,
}
use harbour_leyni.Vault.Json.{
  ℤ, pos, negsuc, Json, undefined, null, fraction, boolean, number, string, array, object, Items,
  Fields, end, field, contains, value, to_string, to_int, to_bool, to_object, to_array,
}
use harbour_leyni.Vault.Qt.{Qt}
use harbour_leyni.Vault.Items.{
  CipherType, login, secure_note, card, identity, EncryptedLogin, EncryptedField, EncryptedCipher,
  Folder, Collection, Organization, SyncData, because, Answer, answer, failure,
}

-- `pascal[0] = pascal[0].toUpper()`, for keys that begin with an ASCII letter.
unfoldable pub capitalize : Bytes → Bytes
capitalize [] = []
capitalize (c ∷ cs) = (if leb b'a' c && leb c b'z' then c - 32 else c) ∷ cs

unfoldable pub value_of : Fields → Bytes → Json
value_of obj camel_case =
    if contains obj camel_case then value obj camel_case else value obj (capitalize camel_case)

unfoldable pub enc_string_of : Fields → Bytes → Bytes
enc_string_of obj key = to_string (value_of obj key)

-- A list with one more field, unless it is empty.
unfoldable pub append_field : List EncryptedField → Bytes → Bytes → List EncryptedField
append_field fields name val =
    if is_empty val
    then fields
    else fields ++ record { name = name; value = val; type = pos 0 } ∷ []

-- The loop over the keys of a card or an identity.
unfoldable pub append_fields : Fields → List Bytes → List EncryptedField → List EncryptedField
append_fields obj [] fields = fields
append_fields obj (key ∷ keys) fields =
    append_fields obj keys (append_field fields key (enc_string_of obj key))

abbrev pub card_keys : List Bytes
card_keys =
    codes "cardholderName"
    ∷ codes "brand"
    ∷ codes "number"
    ∷ codes "expMonth"
    ∷ codes "expYear"
    ∷ codes "code"
    ∷ []

abbrev pub identity_keys : List Bytes
identity_keys =
    codes "title"
    ∷ codes "firstName"
    ∷ codes "middleName"
    ∷ codes "lastName"
    ∷ codes "address1"
    ∷ codes "address2"
    ∷ codes "address3"
    ∷ codes "city"
    ∷ codes "state"
    ∷ codes "postalCode"
    ∷ codes "country"
    ∷ codes "company"
    ∷ codes "email"
    ∷ codes "phone"
    ∷ codes "ssn"
    ∷ codes "username"
    ∷ codes "passportNumber"
    ∷ codes "licenseNumber"
    ∷ []

-- The enumerator of a number from 1 to 4.
unfoldable pub cipher_type : ℤ → Option CipherType
cipher_type (pos (suc zero)) = some login
cipher_type (pos (suc (suc zero))) = some secure_note
cipher_type (pos (suc (suc (suc zero)))) = some card
cipher_type (pos (suc (suc (suc (suc zero))))) = some identity
cipher_type _ = none

unfoldable pub login_uris : List Json → List Bytes
login_uris [] = []
login_uris (entry ∷ entries) =
    let uri = enc_string_of (to_object entry) (codes "uri") in
    if is_empty uri then login_uris entries else uri ∷ login_uris entries

abbrev pub no_login : EncryptedLogin
no_login = record { username = []; password = []; totp = []; uris = [] }

unfoldable pub parse_login : CipherType → Json → EncryptedLogin
parse_login login (object obj) = record {
  username = enc_string_of obj (codes "username");
  password = enc_string_of obj (codes "password");
  totp = enc_string_of obj (codes "totp");
  uris = login_uris (to_array (value_of obj (codes "uris")));
}
parse_login _ _ = no_login

unfoldable pub parse_card : CipherType → Json → List EncryptedField
parse_card card (object obj) = append_fields obj card_keys []
parse_card _ _ = []

unfoldable pub parse_identity : CipherType → Json → List EncryptedField
parse_identity identity (object obj) = append_fields obj identity_keys []
parse_identity _ _ = []

unfoldable pub parse_fields : List Json → List EncryptedField
parse_fields [] = []
parse_fields (entry ∷ entries) =
    let obj = to_object entry in
    let name = enc_string_of obj (codes "name") in
    let val = enc_string_of obj (codes "value") in
    if not (is_empty name) || not (is_empty val)
    then record { name = name; value = val; type = to_int (value_of obj (codes "type")) }
      ∷ parse_fields entries
    else parse_fields entries

-- A cipher whose id, type and name are there.
unfoldable pub parse_cipher_as : CipherType → Fields → EncryptedCipher
parse_cipher_as type obj = record {
  id = to_string (value_of obj (codes "id"));
  type = type;
  folder_id = to_string (value_of obj (codes "folderId"));
  organization_id = to_string (value_of obj (codes "organizationId"));
  favorite = to_bool (value_of obj (codes "favorite"));
  revision_date = to_string (value_of obj (codes "revisionDate"));
  key = enc_string_of obj (codes "key");
  name = enc_string_of obj (codes "name");
  notes = enc_string_of obj (codes "notes");
  login = parse_login type (value_of obj (codes "login"));
  fields = parse_fields (to_array (value_of obj (codes "fields")));
  card_fields = parse_card type (value_of obj (codes "card"));
  identity_fields = parse_identity type (value_of obj (codes "identity"));
  raw = obj;
}

unfoldable pub parse_cipher : Fields → Option EncryptedCipher
parse_cipher obj = elim (cipher_type (to_int (value_of obj (codes "type")))) [
  | none ↦ none
  | some type ↦
      if is_empty (to_string (value_of obj (codes "id")))
        || is_empty (enc_string_of obj (codes "name"))
      then none
      else some (parse_cipher_as type obj)
]

unfoldable pub parse_organizations : List Json → List Organization
parse_organizations [] = []
parse_organizations (entry ∷ entries) =
    let obj = to_object entry in
    let id = to_string (value_of obj (codes "id")) in
    let key = enc_string_of obj (codes "key") in
    if not (is_empty id) && not (is_empty key)
    then record { id = id; name = to_string (value_of obj (codes "name")); key = key }
      ∷ parse_organizations entries
    else parse_organizations entries

unfoldable pub parse_folders : List Json → List Folder
parse_folders [] = []
parse_folders (entry ∷ entries) =
    let obj = to_object entry in
    let id = to_string (value_of obj (codes "id")) in
    let name = enc_string_of obj (codes "name") in
    if not (is_empty id) && not (is_empty name)
    then record { id = id; name = name } ∷ parse_folders entries
    else parse_folders entries

unfoldable pub parse_collections : List Json → List Collection
parse_collections [] = []
parse_collections (entry ∷ entries) =
    let obj = to_object entry in
    let id = to_string (value_of obj (codes "id")) in
    let name = enc_string_of obj (codes "name") in
    let organization_id = to_string (value_of obj (codes "organizationId")) in
    if not (is_empty id) && not (is_empty name)
    then record { id = id; organization_id = organization_id; name = name }
      ∷ parse_collections entries
    else parse_collections entries

-- What one entry of the cipher array is.
pub data Entry : Type 0 where
  trashed skipped : Entry
  parsed : EncryptedCipher → Entry

unfoldable pub parse_entry : Json → Entry
parse_entry (object obj) =
    if not (is_empty (to_string (value_of obj (codes "deletedDate"))))
    then trashed
    else elim (parse_cipher obj) [ none ↦ skipped | some cipher ↦ parsed cipher ]
parse_entry _ = skipped

-- The ciphers, and how many entries were skipped.
unfoldable pub parse_ciphers : List Json → List EncryptedCipher × ℕ
parse_ciphers [] = ([], 0)
parse_ciphers (entry ∷ entries) =
    let (ciphers, count) = parse_ciphers entries in
    elim (parse_entry entry) [
      | trashed ↦ (ciphers, count)
      | skipped ↦ (ciphers, count + 1)
      | parsed cipher ↦ (cipher ∷ ciphers, count)
    ]

unfoldable pub parse_profile : Fields → Fields → Answer (SyncData × ℕ)
parse_profile root profile =
    let (ciphers, count) = parse_ciphers (to_array (value_of root (codes "ciphers"))) in
    if is_empty (enc_string_of profile (codes "key"))
    then failure (because "sync: profile has no protected key")
    else answer (
      record {
        profile_email = to_string (value_of profile (codes "email"));
        profile_key = enc_string_of profile (codes "key");
        profile_private_key = enc_string_of profile (codes "privateKey");
        organizations = parse_organizations (to_array (value_of profile (codes "organizations")));
        ciphers = ciphers;
        folders = parse_folders (to_array (value_of root (codes "folders")));
        collections = parse_collections (to_array (value_of root (codes "collections")));
      },
      count,
    )

unfoldable pub parse_root : Fields → Answer (SyncData × ℕ)
parse_root root = elim (value_of root (codes "profile")) [
  | object profile ↦ parse_profile root profile
  | _ ↦ failure (because "sync: missing profile")
]

unfoldable pub parse_sync_json : Qt → Bytes → Answer (SyncData × ℕ)
parse_sync_json qt json = elim (qt.from_json json) [
  | none ↦ failure (because "sync: invalid JSON")
  | some doc ↦ elim doc [
    | object root ↦ parse_root root
    | _ ↦ failure (because "sync: invalid JSON")
  ]
]
