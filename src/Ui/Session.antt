-- ===== src/Ui/Session.antt =====
-- src/ui/appcontroller.cpp: derivation of the keys, the answers of a sync, unlocking.
use harbour_leyni.Prelude.{
  ◌==◌, Bool, true, false, not, [], none, some, Bytes, is_empty, if◌then◌else◌, Result, err, ok,
  ◌>>=◌,
}
use harbour_leyni.Crypto.Primitives.{Primitives}
use harbour_leyni.Crypto.Base64
use harbour_leyni.Crypto.Kdf.Params.{KdfParams}
use harbour_leyni.Crypto.Kdf.{derive_master_key, derive_master_password_hash}
use harbour_leyni.Vault.Qt.{Qt}
use harbour_leyni.Vault.Items.{answer, failure}
use harbour_leyni.Vault.Session.{load_sync, unlock_with_master_key, reload_sync}
use harbour_leyni.Vault.Stores.{save, exists}
use harbour_leyni.Api.Types.{TokenResponse, Outcome, is_ok}
use harbour_leyni.Api.Client.{refresh_token, sync}
use harbour_leyni.Ui.State.{
  login, locked, unlocked, App, World, blank, words, sync_failed, crypto_error, vault_error,
  DerivedSecrets, DeriveNext, then_unlock, DeriveRun, refresh_call, sync_call, set_page, set_busy,
  set_error, notify, await, refresh_model, with_vault,
}

unfoldable pub derive_async : Bytes → KdfParams → DeriveNext → App → App
derive_async password params next a = elim a.derive [
  | some run ↦ set_error (words "another operation is in progress") a
  | none ↦ record a {
    derive = some (record {
      password = password;
      account_email = a.settings.email;
      params = params;
      next = next;
    });
  }
]

-- After `save`: a file that could not be written is told.
unfoldable pub store_blob : World → Bytes → App → App
store_blob w blob a =
    let (file, saved) = save w.sync_writing blob a.sync_file in
    if saved
    then record a { sync_file = file }
    else notify (words "Warning: could not store vault locally") (record a { sync_file = file })

-- The tokens of a refresh; an empty refresh token keeps the old one.
unfoldable pub take_tokens : TokenResponse → App → App
take_tokens tokens a =
    if not (is_empty tokens.refresh_token)
    then record a {
      access_token = tokens.access_token;
      refresh_token = tokens.refresh_token;
      settings = record a.settings { refresh_token = tokens.refresh_token };
    }
    else record a { access_token = tokens.access_token }

unfoldable pub end_session : App → App
end_session a = record a {
  busy = false;
  last_error = words "session expired — sign in again";
  refresh_token = [];
  settings = record a.settings { refresh_token = [] };
  page = if a.vault.locked then login else a.page;
}

unfoldable pub refreshed : Bool → Outcome TokenResponse → App → App
refreshed fresh_login r a =
    if not (is_ok r)
    then end_session a
    else await (sync_call fresh_login) (sync a.config r.value.access_token) (take_tokens r.value a)

unfoldable pub unlock_app : Bytes → App → App
unlock_app password a =
    let running =
      derive_async password a.settings.kdf then_unlock (set_busy true (set_error blank a)) in
    if (if a.vault.locked then not (exists a.sync_file) else false)
    then set_error (words "no local vault — sign in first") a
    else if a.settings.kdf.iterations == 0
    then set_page login (set_error (words "missing KDF parameters — sign in again") a)
    else running

module _ (qt : Qt) where
  unfoldable pub refresh_and_sync : Bool → App → App
  refresh_and_sync fresh_login a =
      await (refresh_call fresh_login) (refresh_token qt a.config a.refresh_token) a

  unfoldable pub sync_now : App → App
  sync_now a =
      if is_empty a.refresh_token
      then set_error (words "not signed in") a
      else refresh_and_sync false (set_busy true (set_error blank a))

module _ (p : Primitives) (qt : Qt) where
  -- What the worker makes.
  unfoldable pub derived_secrets : DeriveRun → Result DerivedSecrets
  derived_secrets run = do
    master_key ← derive_master_key p run.password (qt.to_lower run.account_email) run.params
    hash ← derive_master_password_hash p master_key run.password
    ok (record { master_key = master_key; password_hash = Base64.encode hash })

  -- An unlocked vault takes the blob under its key.
  unfoldable pub reload_blob : Bytes → App → App
  reload_blob blob a =
      let (v, result) = reload_sync p qt blob a.vault in
      elim result [
        | answer skipped ↦ refresh_model qt (notify (words "Vault synced") (with_vault qt v a))
        | failure f ↦ set_error (vault_error f) (set_page locked (with_vault qt v a))
      ]

  -- With the key that the login has derived.
  unfoldable pub enter_with : Bytes → App → App
  enter_with master_key a =
      let (v, result) = unlock_with_master_key p qt master_key a.vault in
      elim result [
        | answer done ↦ set_page unlocked (refresh_model qt (with_vault qt v a))
        | failure f ↦ set_page locked (set_error (vault_error f) (with_vault qt v a))
      ]

  unfoldable pub enter : Bool → App → App
  enter false a = set_page locked a
  enter true a = elim a.pending_secrets [
    | none ↦ set_page locked a
    | some secrets ↦ enter_with secrets.master_key (record a { pending_secrets = none })
  ]

  unfoldable pub load_blob : Bool → Bytes → App → App
  load_blob fresh_login blob a =
      let (v, result) = load_sync qt blob a.vault in
      elim result [
        | failure f ↦ set_error (vault_error f) (with_vault qt v a)
        | answer skipped ↦ enter fresh_login (with_vault qt v a)
      ]

  unfoldable pub apply_sync_blob : World → Bytes → Bool → App → App
  apply_sync_blob w blob fresh_login a =
      let stored = store_blob w blob a in
      let reloaded = reload_blob blob stored in
      let loaded = load_blob fresh_login blob stored in
      set_busy false (if not stored.vault.locked then reloaded else loaded)

  unfoldable pub synced : World → Bool → Outcome Bytes → App → App
  synced w fresh_login result a =
      if not (is_ok result)
      then set_error (sync_failed result.error.message) (set_busy false a)
      else apply_sync_blob w result.value fresh_login a

  unfoldable pub unlock_with : Bytes → App → App
  unlock_with master_key a =
      let (v, result) = unlock_with_master_key p qt master_key a.vault in
      elim result [
        | answer done ↦ set_page unlocked (refresh_model qt (with_vault qt v a))
        | failure f ↦ set_error (vault_error f) (with_vault qt v a)
      ]

  unfoldable pub derived_to_unlock : Result DerivedSecrets → App → App
  derived_to_unlock (err e) a = set_error (crypto_error e) (set_busy false a)
  derived_to_unlock (ok secrets) a = unlock_with secrets.master_key (set_busy false a)
