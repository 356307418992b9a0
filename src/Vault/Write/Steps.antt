-- ===== src/Vault/Write/Steps.antt =====
-- What the steps of buildUpdateBody of src/vault/vault.cpp do to the keys of the object.
use harbour_leyni.Prelude.{
  ◌≡◌, refl, false, List, [], ◌∷◌, Bytes, codes, bytes_equal, All, ok, >>=-eq-ok,
}
use harbour_leyni.Crypto.Primitives.{Primitives}
use harbour_leyni.Crypto.Keys.{SymmetricKey}
use harbour_leyni.Vault.Json.{
  Fields, value, insert_field, string, boolean, object, remove_field, to_string, to_object,
}
use harbour_leyni.Vault.Items.{CipherType, EncryptedCipher}
use harbour_leyni.Vault.SyncParser.{value_of}
use harbour_leyni.Vault.Write.{
  EditedItem, Ivs, response_only, remove_keys, with_revision, text_or_null, encrypt_field,
  enc_or_null, build_login_object, common_fields, update_login, update_object,
}
use harbour_leyni.Vault.Write.Edits.{
  Agrees, Agrees-trans, insert_field-value, insert_field-Agrees, inserted-Agrees,
  remove_field-Agrees,
}

-- The keys that an edit writes, or clears for an item that a server spelt in PascalCase.
abbrev pub edited_keys : List Bytes
edited_keys =
    codes "name"
    ∷ codes "notes"
    ∷ codes "favorite"
    ∷ codes "folderId"
    ∷ codes "login"
    ∷ codes "Login"
    ∷ codes "lastKnownRevisionDate"
    ∷ []

abbrev pub IsOther : Bytes → List Bytes → Type 0
IsOther k = All (λ j. bytes_equal j k ≡ false)

with_revision-Agrees :
    (k revision : Bytes) (body : Fields)
    → bytes_equal (codes "lastKnownRevisionDate") k ≡ false
    → Agrees k body (with_revision revision body)
unfolding with_revision
with_revision-Agrees k [] body other = (refl, refl)
with_revision-Agrees k (c ∷ cs) body other = insert_field-Agrees _ k (string (c ∷ cs)) body other

module _ (p : Primitives) (fields : EditedItem) (ivs : Ivs) (key : SymmetricKey) where
  common_fields-Agrees :
      (k : Bytes) (body edited : Fields)
      → common_fields p fields ivs key body ≡ ok edited
      → IsOther k edited_keys
      → Agrees k body edited
  unfolding common_fields
  common_fields-Agrees k body edited e (name, (notes, (favorite, (folder, others)))) =
      let (n, n_ok, rest) = >>=-eq-ok (encrypt_field p ivs.name fields.name key) _ e in
      let (m, m_ok, done) = >>=-eq-ok (enc_or_null p ivs.notes fields.notes key) _ rest in
      let (same_value, same_key) =
        inserted-Agrees (codes "folderId") k (text_or_null fields.folder_id) body _ folder (
          inserted-Agrees (codes "favorite") k (boolean fields.favorite) body _ favorite (
            inserted-Agrees (codes "notes") k m body _ notes
              (insert_field-Agrees (codes "name") k (string n) body name))) in
      (cc, cc)

  update_login-Agrees :
      (k : Bytes) (type : CipherType) (body edited : Fields)
      → update_login p type fields ivs key body ≡ ok edited
      → bytes_equal (codes "login") k ≡ false
      → bytes_equal (codes "Login") k ≡ false
      → Agrees k body edited
  unfolding update_login
  update_login-Agrees k CipherType.login body edited e small big =
      let (login, made, done) =
        >>=-eq-ok (build_login_object p fields ivs (to_object (value_of body (codes "login"))) key)
          _ e in
      let (same_value, same_key) =
        Agrees-trans k body (remove_field (codes "Login") body) _
          (remove_field-Agrees (codes "Login") k body big)
          (insert_field-Agrees (codes "login") k (object login) (remove_field (codes "Login") body)
            small) in
      (cc, cc)
  update_login-Agrees k CipherType.secure_note body edited e small big = (cc, cc)
  update_login-Agrees k CipherType.card body edited e small big = (cc, cc)
  update_login-Agrees k CipherType.identity body edited e small big = (cc, cc)

  -- The name that an edit writes.
  common_fields-name :
      (body edited : Fields)
      → common_fields p fields ivs key body ≡ ok edited
      → (name : Bytes) × (encrypt_field p ivs.name fields.name key ≡ ok name)
        × (value edited (codes "name") ≡ string name)
  unfolding common_fields bytes_equal
  common_fields-name body edited e =
      let (n, n_ok, rest) = >>=-eq-ok (encrypt_field p ivs.name fields.name key) _ e in
      let (m, m_ok, done) = >>=-eq-ok (enc_or_null p ivs.notes fields.notes key) _ rest in
      let named = insert_field (codes "name") (string n) body in
      let (same_value, same_key) =
        inserted-Agrees (codes "folderId") (codes "name") (text_or_null fields.folder_id) named _
          refl
          (inserted-Agrees (codes "favorite") (codes "name") (boolean fields.favorite) named _ refl
            (insert_field-Agrees (codes "notes") (codes "name") m named refl)) in
      let here = insert_field-value (codes "name") (string n) body in (n, n_ok, cc)

-- An edit is a change of the common fields, and what comes after it touches three keys.
update_object-parts :
    (p : Primitives) (cipher : EncryptedCipher) (fields : EditedItem) (ivs : Ivs)
    (key : SymmetricKey) (body : Fields)
    → update_object p cipher fields ivs key ≡ ok body
    → (common : Fields) × (common_fields p fields ivs key (remove_keys response_only cipher.raw)
        ≡ ok common)
      × ((k : Bytes)
          → bytes_equal (codes "login") k ≡ false
          → bytes_equal (codes "Login") k ≡ false
          → bytes_equal (codes "lastKnownRevisionDate") k ≡ false
          → Agrees k common body)
unfolding update_object
update_object-parts p cipher fields ivs key body e =
    let raw = remove_keys response_only cipher.raw in
    let revision = to_string (value_of cipher.raw (codes "revisionDate")) in
    let (common, made, rest) = >>=-eq-ok (common_fields p fields ivs key raw) _ e in
    let (typed, patched, done) =
      >>=-eq-ok (update_login p cipher.type fields ivs key common) _ rest in
    (
      common,
      made,
      λ k small big hint.
          let (same_value, same_key) =
            Agrees-trans k common typed _
              (update_login-Agrees p fields ivs key k cipher.type common typed patched small big)
              (with_revision-Agrees k revision typed hint) in
          (cc, cc),
    )

pub update_object-Agrees :
    (p : Primitives) (cipher : EncryptedCipher) (fields : EditedItem) (ivs : Ivs)
    (key : SymmetricKey) (body : Fields) (k : Bytes)
    → update_object p cipher fields ivs key ≡ ok body
    → IsOther k edited_keys
    → Agrees k (remove_keys response_only cipher.raw) body
update_object-Agrees p cipher fields ivs key body k e
      (name, (notes, (favorite, (folder, (small, (big, (hint, none_else))))))) =
    let raw = remove_keys response_only cipher.raw in
    let (common, made, rest) = update_object-parts p cipher fields ivs key body e in
    Agrees-trans k raw common body
      (common_fields-Agrees p fields ivs key k raw common made
        (name, (notes, (favorite, (folder, (small, (big, (hint, none_else))))))))
      (rest k small big hint)

-- The name of the item is sent as the new name, encrypted.
abbrev pub Renames : Primitives → EditedItem → Ivs → SymmetricKey → Fields → Type 0
Renames p fields ivs key body =
    (name : Bytes) × (encrypt_field p ivs.name fields.name key ≡ ok name)
    × (value body (codes "name") ≡ string name)

pub update_object-Renames :
    (p : Primitives) (cipher : EncryptedCipher) (fields : EditedItem) (ivs : Ivs)
    (key : SymmetricKey) (body : Fields)
    → update_object p cipher fields ivs key ≡ ok body
    → Renames p fields ivs key body
unfolding bytes_equal
update_object-Renames p cipher fields ivs key body e =
    let (common, made, rest) = update_object-parts p cipher fields ivs key body e in
    let (name, encrypts, there) = common_fields-name p fields ivs key _ common made in
    let (same_value, same_key) = rest (codes "name") refl refl refl in (name, encrypts, cc)
