-- ===== src/Tests/Vault.antt =====
-- The vault over the toy primitives: a sync with one login, unlocked and read.
use harbour_leyni.Prelude.{
  none, ◌+◌, ◌≡◌, refl, arith, true, false, List, [], ◌∷◌, ◌++◌, some, inr, Bytes, take, IsBytes,
  codes, length, ok, ◌>>=◌, bytes_equal,
}
use harbour_leyni.Prelude.Search.{find}
use harbour_leyni.Prelude.Decimal.{is_digit, stoi}
use harbour_leyni.Crypto.Keys.{
  SymmetricKey, IsKey, symmetric_key_from_bytes, hkdf_expand_sha256, stretch_master_key,
  hmac_sha256,
}
use harbour_leyni.Crypto.SecureBytes.{constant_time_equal, compare_loop}
use harbour_leyni.Crypto.EncString
use harbour_leyni.Crypto.Base64
use harbour_leyni.Crypto.Cipher.{decrypt_aes256_cbc_hmac, encrypt_aes256_cbc_hmac_with_iv}
use harbour_leyni.Vault.Json.{
  Json, pos, null, number, string, array, object, nil, cons, Fields, end, field, contains, value,
}
use harbour_leyni.Vault.Qt.{Qt}
use harbour_leyni.Vault.Items.{
  CipherType, EncryptedCipher, DecryptedItem, SyncData, because, answer, failure,
}
use harbour_leyni.Vault.SyncParser.{
  capitalize, value_of, enc_string_of, append_field, append_fields, cipher_type, login_uris,
  parse_login, parse_card, parse_identity, parse_fields, parse_cipher_as, parse_cipher,
  parse_organizations, parse_folders, parse_collections, parse_entry, parse_ciphers, parse_profile,
  parse_root, parse_sync_json,
}
use harbour_leyni.Vault.SyncParser.Sound.{count_trashed, parse_ciphers_accounts}
use harbour_leyni.Vault.State.{Vault, new_vault, lock, set_auto_lock_seconds}
use harbour_leyni.Vault.Int.{as_int}
use harbour_leyni.Vault.OtpUri.{
  TotpSpec, default_spec, skip_spaces, digits_of, signed_word, atoi, set_param, read_param,
  read_params, check_spec, parse_query, parse_totp_secret,
}
use harbour_leyni.Vault.OtpUri.Sound.{IsReadFrom, IsUsable, parse_totp_secret-IsUsable}
use harbour_leyni.Vault.Access.{
  find_in, find_cipher, owner_key, decrypt_bytes, decrypt_to_string, decrypt_unless_empty,
  cipher_key, item_password, item_notes, item_totp_secret,
}
use harbour_leyni.Vault.Access.Readers.{IsTold, readers-IsTold, item_password-encrypt}
use harbour_leyni.Vault.Display.{
  rebuild_private_key, rebuild_org_keys, add_folder_names, display_item, display_items,
  rebuild_display_data,
}
use harbour_leyni.Vault.Session.{
  load_sync, open_vault, build_user_key, unlock_stretched, unlock_with_master_key,
  verify_master_key, replace_data, reload_fresh, reload_sync,
}
use harbour_leyni.Vault.Session.Invariant.{IsSealed, IsVault}
use harbour_leyni.Vault.Session.Reachable.{
  start, next, loaded, unlocked_with_key, auto_lock_set, Reachable-IsVault,
}
use harbour_leyni.Vault.Session.Timer.{Obeys}
use harbour_leyni.Vault.Session.Reload.{reload_sync_sound}
use harbour_leyni.Vault.Session.Unlock.{
  unlock_with_master_key-IsSealed, unlock_with_master_key_sound,
}
use harbour_leyni.Tests.Toy.{replicate, toy, toy-HmacLaws, toy-AesLaws}

abbrev pub join_items : List (Bytes × Bytes) → Bytes
join_items [] = []
join_items ((k, v) ∷ rest) = k ++ b'=' ∷ (v ++ b'&' ∷ join_items rest)

abbrev protected_key : Bytes
protected_key =
    codes
      "2.AQEBAQEBAQEBAQEBAQEBAQ==|EBAQEBAQEBAQEBAQEBAQEAMDAwMDAwMDAwMDAwMDAwMDAwMDAwMDAwMDAwMDAwMDAwMDAwMDAwMDAwMDAwMDAwMDAwMDAwMDAwMDAwMDAwM=|MDAwMDAwMDAwMDAwMDAwMDAwMDAwMDAwMDAwMDAwMDA="

abbrev name_text : Bytes
name_text =
    codes
      "2.AQEBAQEBAQEBAQEBAQEBAQ==|DAwMDAwMDAwMDAwMTWFpbA==|g4ODg4ODg4ODg4ODg4ODg4ODg4ODg4ODg4ODg4ODg4M="

abbrev password_text : Bytes
password_text =
    codes
      "2.AQEBAQEBAQEBAQEBAQEBAQ==|DQ0NDQ0NDQ0NDQ0NDXB3MQ==|MTExMTExMTExMTExMTExMTExMTExMTExMTExMTExMTE="

abbrev pub login_entry : Fields
login_entry = field (codes "id") (string (codes "c1")) (
    field (codes "Type") (number (pos 1)) (
      field (codes "name") (string name_text)
        (field (codes "login") (object (field (codes "password") (string password_text) end)) end)))

abbrev trashed_entry : Fields
trashed_entry = field (codes "deletedDate") (string (codes "2024-01-01")) login_entry

abbrev document : Json
document = object (
    field (codes "profile") (object (field (codes "key") (string protected_key) end)) (
      field (codes "ciphers")
        (array (cons (object login_entry) (cons null (cons (object trashed_entry) nil)))) end))

abbrev pub qt : Qt
qt = record {
  from_json = λ json. some document;
  from_utf8 = λ text. text;
  trimmed = λ text. text;
  to_lower = λ text. text;
  locale_less = λ a b. false;
  contains_text = λ a b. true;
  to_json = λ fields. codes "{}";
  percent_encoding = λ text. text;
  base64_url = λ text. text;
  text_to_int = λ text. none;
  query = join_items;
  size = length;
}

abbrev pub mail : EncryptedCipher
mail = record {
  id = codes "c1";
  type = CipherType.login;
  folder_id = [];
  organization_id = [];
  favorite = false;
  revision_date = [];
  key = [];
  name = name_text;
  notes = [];
  login = record { username = []; password = password_text; totp = []; uris = [] };
  fields = [];
  card_fields = [];
  identity_fields = [];
  raw = login_entry;
}

abbrev pub synced : SyncData
synced = record {
  profile_email = [];
  profile_key = protected_key;
  profile_private_key = [];
  organizations = [];
  ciphers = mail ∷ [];
  folders = [];
  collections = [];
}

abbrev entries : List Json
entries = object login_entry ∷ null ∷ object trashed_entry ∷ []

parse_ciphers_accounts_example :
    length (parse_ciphers entries).0 + (parse_ciphers entries).1 + count_trashed entries ≡ 3
parse_ciphers_accounts_example = parse_ciphers_accounts entries

abbrev user_key : SymmetricKey
user_key = record { enc_key = replicate 32 3; mac_key = replicate 32 3 }

abbrev shown : DecryptedItem
shown = record {
  id = codes "c1";
  type = CipherType.login;
  folder_id = [];
  organization_id = [];
  favorite = false;
  name = codes "Mail";
  username = [];
  primary_uri = [];
  has_totp = false;
  has_password = true;
  has_notes = false;
  has_details = false;
}

abbrev loaded_vault : Vault
loaded_vault = record new_vault { sync_data = synced; timer_interval = pos 60_000 }

abbrev pub opened : Vault
opened = record loaded_vault {
  locked = false;
  user_key = user_key;
  items = shown ∷ [];
  timer_active = true;
  emitted = false ∷ [];
}

abbrev master_key : Bytes
master_key = replicate 32 7

unlocks : unlock_with_master_key toy qt master_key loaded_vault ≡ (opened, answer tt)
unfolding unlock_with_master_key lock unlock_stretched build_user_key open_vault
    rebuild_display_data rebuild_private_key rebuild_org_keys add_folder_names display_items
    display_item decrypt_unless_empty decrypt_to_string decrypt_bytes cipher_key owner_key
    stretch_master_key hkdf_expand_sha256 symmetric_key_from_bytes hmac_sha256
    decrypt_aes256_cbc_hmac constant_time_equal compare_loop EncString.parse EncString.parse_at
    EncString.parse_parts EncString.parse_two_parts EncString.parse_two EncString.split_parts
    EncString.all_digits find is_digit stoi Base64.decode Base64.decode_char Base64.read_group
    Base64.group_bytes Base64.read_groups Base64.padding toy replicate
unlocks = refl

unlock_with_master_key_sound_example :
    (verify_master_key toy master_key loaded_vault ≡ answer tt)
    × ((stretch_master_key toy master_key >>= decrypt_bytes toy protected_key)
        ≡ ok (user_key.enc_key ++ user_key.mac_key))
    × (synced ≡ synced)
    × (false ≡ false)
unlock_with_master_key_sound_example =
    unlock_with_master_key_sound toy qt master_key loaded_vault {w = opened} unlocks

-- Ten minutes are set, then a sync is loaded and unlocked.
abbrev ten_minutes : Vault
ten_minutes = set_auto_lock_seconds (pos 600) new_vault

abbrev unlocked_vault : Vault
unlocked_vault = (unlock_with_master_key toy qt master_key (load_sync qt [] ten_minutes).0).0

Reachable-IsVault_example : IsVault unlocked_vault × Obeys (pos 600) unlocked_vault
Reachable-IsVault_example = Reachable-IsVault toy qt (pos 600) unlocked_vault (
    next (pos 600) _ _
      (next (pos 600) _ _ (auto_lock_set (pos 600) (pos 0) new_vault start) (loaded [] ten_minutes))
      (unlocked_with_key master_key _))

reloads : reload_sync toy qt [] opened ≡ (opened, answer 1)
unfolding reload_sync reload_fresh replace_data lock rebuild_display_data rebuild_private_key
    rebuild_org_keys add_folder_names display_items display_item decrypt_unless_empty
    decrypt_to_string decrypt_bytes cipher_key owner_key hmac_sha256 decrypt_aes256_cbc_hmac
    constant_time_equal compare_loop EncString.parse EncString.parse_at EncString.parse_parts
    EncString.parse_two_parts EncString.parse_two EncString.split_parts EncString.all_digits find
    is_digit stoi Base64.decode Base64.decode_char Base64.read_group Base64.group_bytes
    Base64.read_groups Base64.padding toy replicate parse_sync_json parse_root parse_profile
    parse_ciphers parse_entry parse_cipher parse_cipher_as parse_fields parse_identity parse_card
    parse_login login_uris cipher_type append_fields append_field enc_string_of value_of capitalize
    contains value bytes_equal parse_collections parse_folders parse_organizations
reloads = refl

user_key-IsKey : IsKey user_key
unfolding replicate
user_key-IsKey = record { enc_size = refl; mac_size = refl }

opened-IsVault : IsVault opened
opened-IsVault = record {
  state = inr (record {
    not_locked = refl;
    user_key-IsKey = user_key-IsKey;
    org_keys-AreKeys = tt;
    timed = refl;
  });
  signals = (refl, tt);
}

reload_sync_sound_example :
    (parse_sync_json qt [] ≡ answer (synced, 1))
    × (protected_key ≡ protected_key)
    × (user_key ≡ user_key)
    × (false ≡ false)
reload_sync_sound_example = reload_sync_sound toy qt [] opened {w = opened} opened-IsVault reloads

abbrev stale_vault : Vault
stale_vault = record opened { sync_data = record synced { profile_key = codes "2.x" } }

refuses :
    unlock_with_master_key toy qt master_key stale_vault
    ≡ (lock stale_vault, failure (because "wrong master password"))
unfolding unlock_with_master_key lock unlock_stretched decrypt_bytes stretch_master_key
    hkdf_expand_sha256 EncString.parse EncString.parse_at EncString.parse_parts
    EncString.parse_two_parts EncString.parse_two EncString.split_parts EncString.all_digits find
    is_digit stoi toy replicate
refuses = refl

unlock_with_master_key-IsSealed_example : IsSealed (lock stale_vault)
unlock_with_master_key-IsSealed_example =
    unlock_with_master_key-IsSealed toy qt master_key stale_vault (omega arith) refuses

readers-IsTold_example :
    IsTold toy qt opened
      (codes "c1")
      (λ cipher. cipher.login.password)
      (item_password toy qt opened (codes "c1"))
    × IsTold toy qt opened
        (codes "c1")
        (λ cipher. cipher.notes)
        (item_notes toy qt opened (codes "c1"))
    × IsTold toy qt opened
        (codes "c1")
        (λ cipher. cipher.login.totp)
        (item_totp_secret toy qt opened (codes "c1"))
readers-IsTold_example = readers-IsTold toy qt opened (codes "c1")

finds : find_cipher opened (codes "c1") ≡ some mail
unfolding find_cipher find_in bytes_equal
finds = refl

written :
    (encrypt_aes256_cbc_hmac_with_iv toy (codes "pw1") user_key (replicate 16 1)
      >>= EncString.serialize)
    ≡ ok password_text
unfolding encrypt_aes256_cbc_hmac_with_iv hmac_sha256 EncString.serialize Base64.encode
    Base64.sextet Base64.encode_char toy replicate
written = refl

iv_size : length (replicate 16 1) ≡ 16
unfolding replicate
iv_size = refl

iv-IsBytes : IsBytes (replicate 16 1)
unfolding replicate
iv-IsBytes = omega arith

item_password-encrypt_example : item_password toy qt opened (codes "c1") ≡ answer (codes "pw1")
item_password-encrypt_example =
    item_password-encrypt toy toy-HmacLaws toy-AesLaws qt opened (codes "c1") (replicate 16 1)
      (codes "pw1") mail user_key-IsKey refl finds refl refl iv_size iv-IsBytes (omega arith)
      written

abbrev address : Bytes
address = codes "otpauth://totp/x?secret=ABCD&period=60&digits=8"

abbrev spec : TotpSpec
spec = record default_spec { base32_secret = codes "ABCD"; period = 60; digits = pos 8 }

reads_address : parse_totp_secret address ≡ answer spec
unfolding parse_totp_secret parse_query read_params read_param set_param atoi signed_word
    skip_spaces digits_of as_int check_spec EncString.split_parts find is_digit stoi bytes_equal
reads_address = refl

negative_digits :
    parse_totp_secret (codes "otpauth://totp/x?secret=ABCD&digits=-8")
    ≡ failure (because "otpauth URI has invalid parameters")
unfolding parse_totp_secret parse_query read_params read_param set_param atoi signed_word
    skip_spaces digits_of as_int check_spec EncString.split_parts find is_digit stoi bytes_equal
negative_digits = refl

parse_totp_secret-IsUsable_example :
    (bytes_equal (take 8 address) (codes "steam://") ≡ false)
    × IsReadFrom address spec
    × IsUsable spec
parse_totp_secret-IsUsable_example = parse_totp_secret-IsUsable address reads_address
