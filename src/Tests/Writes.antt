-- ===== src/Tests/Writes.antt =====
-- The edit of the login of Tests.Vault, which asks for the master password again.
use harbour_leyni.Prelude.{◌≡◌, refl, false, [], ◌∷◌, none, some, codes, bytes_equal}
use harbour_leyni.Crypto.Keys.{hmac_sha256}
use harbour_leyni.Crypto.EncString
use harbour_leyni.Crypto.Base64
use harbour_leyni.Crypto.Cipher.{encrypt_aes256_cbc_hmac, encrypt_aes256_cbc_hmac_with_iv}
use harbour_leyni.Vault.Json.{pos, number, field, contains, value, insert_field, remove_field}
use harbour_leyni.Vault.Items.{EncryptedCipher, answer}
use harbour_leyni.Vault.SyncParser.{capitalize, value_of}
use harbour_leyni.Vault.State.{Vault}
use harbour_leyni.Vault.Access.{find_in, find_cipher, owner_key, cipher_key}
use harbour_leyni.Vault.Write.{
  EditedItem, Ivs, build_update_body, update_body, update_object, update_login, common_fields,
  build_login_object, login_uris, clear_uris, enc_or_null, encrypt_field, with_revision,
  remove_keys, text_or_null,
}
use harbour_leyni.Vault.Write.Survives.{Sends, build_update_body_survives}
use harbour_leyni.Tests.Toy.{replicate, toy}
use harbour_leyni.Tests.Vault.{qt, login_entry, mail, synced, opened}

abbrev guarded : EncryptedCipher
guarded = record mail { raw = field (codes "reprompt") (number (pos 1)) login_entry }

abbrev vault : Vault
vault = record opened { sync_data = record synced { ciphers = guarded ∷ [] } }

abbrev edited : EditedItem
edited = record {
  name = codes "Post";
  notes = [];
  folder_id = [];
  favorite = false;
  username = codes "bob";
  password = [];
  totp = [];
  uri = [];
}

abbrev ivs : Ivs
ivs = record {
  name = some (replicate 16 1);
  notes = none;
  username = some (replicate 16 2);
  password = none;
  totp = none;
  uri = none;
}

edits : build_update_body toy qt (codes "c1") edited ivs vault ≡ answer (codes "{}")
unfolding build_update_body update_body update_object update_login common_fields build_login_object
    login_uris clear_uris enc_or_null encrypt_field with_revision remove_keys text_or_null
    find_cipher find_in owner_key cipher_key bytes_equal value_of contains value insert_field
    remove_field capitalize encrypt_aes256_cbc_hmac encrypt_aes256_cbc_hmac_with_iv hmac_sha256
    EncString.serialize Base64.encode Base64.sextet Base64.encode_char toy replicate
edits = refl

build_update_body_survives_example :
    (false ≡ false) × Sends toy qt vault (codes "c1") edited ivs (codes "reprompt") (codes "{}")
unfolding bytes_equal capitalize
build_update_body_survives_example =
    build_update_body_survives toy qt vault (codes "c1") edited ivs (codes "reprompt") (codes "{}")
      (refl, (refl, (refl, (refl, (refl, (refl, (refl, tt)))))))
      ((
        (refl, refl),
        (
          (refl, refl),
          (
            (refl, refl),
            (
              (refl, refl),
              (
                (refl, refl),
                ((refl, refl), ((refl, refl), ((refl, refl), ((refl, refl), ((refl, refl), tt))))),
              ),
            ),
          ),
        ),
      ))
      edits
