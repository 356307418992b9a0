-- ===== src/Vault/Display.antt =====
-- `rebuildDisplayData` of src/vault/vault.cpp: the private key, the organization keys, the folder
-- names and the display fields, decrypted with the user key. An exception leaves the members half
-- filled; both callers then call `lock`, which empties all of them, so the model gives the error
-- alone.
use harbour_leyni.Prelude.{
  ◌||◌, ◌&&◌, not, List, [], ◌∷◌, ◌++◌, Bytes, is_empty, Bool, if◌then◌else◌, Result, err, ok,
  ◌>>=◌,
}
use harbour_leyni.Crypto.Primitives.{Primitives}
use harbour_leyni.Crypto.Keys.{SymmetricKey, symmetric_key_from_bytes}
use harbour_leyni.Crypto.EncString.{parse}
use harbour_leyni.Crypto.Cipher.{decrypt_rsa_oaep_sha1}
use harbour_leyni.Vault.Qt.{Qt}
use harbour_leyni.Vault.Items.{
  CipherType, login, EncryptedCipher, Folder, Organization, DecryptedItem, answer, failure,
}
use harbour_leyni.Vault.Maps.{emplace, insert}
use harbour_leyni.Vault.State.{Vault}
use harbour_leyni.Vault.Access.{decrypt_bytes, decrypt_to_string, decrypt_unless_empty, cipher_key}

unfoldable pub first_uri : List Bytes → Bytes
first_uri [] = []
first_uri (uri ∷ uris) = uri

module _ (p : Primitives) where
  -- Without a private key in the data, the one in memory stays.
  unfoldable pub rebuild_private_key : Vault → Result Bytes
  rebuild_private_key v =
      if is_empty v.sync_data.profile_private_key
      then ok v.private_key_der
      else decrypt_bytes p v.sync_data.profile_private_key v.user_key

  unfoldable pub unwrap_org_key : Organization → Bytes → Result SymmetricKey
  unwrap_org_key org private_key_der = do
    enc ← parse org.key
    org_key_raw ← decrypt_rsa_oaep_sha1 p enc private_key_der
    symmetric_key_from_bytes org_key_raw

  -- A key that does not unwrap is passed over.
  unfoldable pub add_org_keys :
      List Organization → Bytes → List (Bytes × SymmetricKey) → List (Bytes × SymmetricKey)
  add_org_keys [] der org_keys = org_keys
  add_org_keys (org ∷ orgs) der org_keys =
      add_org_keys orgs der
        (elim (unwrap_org_key org der) [ err e ↦ org_keys | ok key ↦ emplace org_keys org.id key ])

  unfoldable pub rebuild_org_keys : Vault → List (Bytes × SymmetricKey)
  rebuild_org_keys v =
      if is_empty v.private_key_der
      then v.org_keys
      else add_org_keys v.sync_data.organizations v.private_key_der v.org_keys

  unfoldable pub add_folder_names :
      Qt → List Folder → SymmetricKey → List (Bytes × Bytes) → Result (List (Bytes × Bytes))
  add_folder_names qt [] key names = ok names
  add_folder_names qt (folder ∷ folders) key names = do
    name ← decrypt_to_string p qt folder.name key
    add_folder_names qt folders key (insert names folder.id name)

  abbrev pub is_login : CipherType → Bool
  is_login login = Bool.true
  is_login _ = Bool.false

  unfoldable pub display_item : Qt → EncryptedCipher → SymmetricKey → Result DecryptedItem
  display_item qt cipher key = do
    let is_login_item = is_login cipher.type
    name ← decrypt_to_string p qt cipher.name key
    username ← decrypt_unless_empty p qt (if is_login_item then cipher.login.username else []) key
    primary_uri ←
        if is_login_item && not (is_empty cipher.login.uris)
        then decrypt_to_string p qt (first_uri cipher.login.uris) key
        else ok []
    ok (record {
      id = cipher.id;
      type = cipher.type;
      folder_id = cipher.folder_id;
      organization_id = cipher.organization_id;
      favorite = cipher.favorite;
      name = name;
      username = username;
      primary_uri = primary_uri;
      has_totp = is_login_item && not (is_empty cipher.login.totp);
      has_password = is_login_item && not (is_empty cipher.login.password);
      has_notes = not (is_empty cipher.notes);
      has_details =
          not (is_empty cipher.fields)
          || not (is_empty cipher.card_fields)
          || not (is_empty cipher.identity_fields);
    })

  -- A cipher whose key is not available is not shown.
  unfoldable pub display_items : Qt → Vault → List EncryptedCipher → Result (List DecryptedItem)
  display_items qt v [] = ok []
  display_items qt v (cipher ∷ ciphers) = elim (cipher_key p v cipher) [
    | failure f ↦ display_items qt v ciphers
    | answer key ↦ do
      item ← display_item qt cipher key
      rest ← display_items qt v ciphers
      ok (item ∷ rest)
  ]

  unfoldable pub rebuild_display_data : Qt → Vault → Result Vault
  rebuild_display_data qt v = do
    der ← rebuild_private_key v
    let with_der = record v { private_key_der = der }
    let with_orgs = record with_der { org_keys = rebuild_org_keys with_der }
    names ← add_folder_names qt v.sync_data.folders v.user_key v.folder_names
    items ← display_items qt with_orgs v.sync_data.ciphers
    ok (record with_orgs { folder_names = names; items = v.items ++ items })
