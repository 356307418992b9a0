-- ===== src/Ui/Account.antt =====
-- src/ui/appcontroller.cpp: the settings, the account and the device.
use harbour_leyni.Prelude.{
  zero, suc, ◌==◌, Bool, false, ◌&&◌, ◌||◌, not, [], ◌∷◌, Bytes, codes, bytes_equal, is_empty,
  if◌then◌else◌, none,
}
use harbour_leyni.Vault.Json.{ℤ, pos, negsuc}
use harbour_leyni.Vault.Int.{mul_int}
use harbour_leyni.Vault.Qt.{Qt}
use harbour_leyni.Vault.Items.{answer, failure}
use harbour_leyni.Vault.State.{new_vault, lock, can_start, set_auto_lock_seconds, timeout}
use harbour_leyni.Vault.Session.{load_sync}
use harbour_leyni.Vault.ListModel.{new_model}
use harbour_leyni.Vault.Stores.{File, load, exists, clear}
use harbour_leyni.Api.Types.{DeviceInfo}
use harbour_leyni.Api.ServerConfig.{ServerConfig, cloud_us, cloud_eu, self_hosted}
use harbour_leyni.Ui.State.{
  setup, login, locked, Settings, App, World, words, blank, copied_for, set_page, notify,
  with_vault, note, to_seconds,
}

unfoldable pub server_config : Qt → Bytes → ServerConfig
server_config qt url =
    if is_empty url
      || (bytes_equal url (codes "bitwarden.com")
          || bytes_equal url (codes "https://bitwarden.com"))
    then cloud_us
    else if bytes_equal url (codes "bitwarden.eu") || bytes_equal url (codes "https://bitwarden.eu")
    then cloud_eu
    else self_hosted qt url

unfoldable pub current_server_config : Qt → Settings → ServerConfig
current_server_config qt s = server_config qt s.server_url

-- `id.remove(…)` of both braces
unfoldable pub remove_braces : Bytes → Bytes
remove_braces [] = []
remove_braces (c ∷ cs) =
    let rest = remove_braces cs in if c == b'{' || c == b'}' then rest else c ∷ rest

abbrev pub device_of : Bytes → DeviceInfo
device_of id = record { identifier = id; name = codes "Sailfish OS (Leyni)"; type = pos 8 }

-- The identifier is made once.
unfoldable pub device_info : World → App → App × DeviceInfo
device_info w a =
    if is_empty a.settings.device_id
    then (
      record a { settings = record a.settings { device_id = remove_braces w.uuid } },
      device_of (remove_braces w.uuid),
    )
    else (a, device_of a.settings.device_id)

unfoldable pub set_auto_lock_minutes : ℤ → App → App
set_auto_lock_minutes minutes a = record a {
  settings = record a.settings { auto_lock_minutes = minutes };
  vault = set_auto_lock_seconds (to_seconds minutes) a.vault;
}

unfoldable pub forget_pin : World → App → App
forget_pin w a = record a {
  pin_file = (clear w.pin_removed a.pin_file).0;
  settings = record a.settings { pin_failures = 0 };
}

module _ (qt : Qt) where
  unfoldable pub configure_account : Bytes → Bytes → App → App
  configure_account server_url email a =
      let settings = record a.settings {
        server_url = qt.trimmed server_url;
        email = qt.to_lower (qt.trimmed email);
      } in
      set_page login (record a { settings = settings; config = current_server_config qt settings })

  -- The page of a start, and the vault that it has.
  unfoldable pub first_page : App → App
  first_page a =
      if is_empty a.settings.email
      then set_page setup a
      else if exists a.sync_file
      then elim (load_sync qt (load a.sync_file) a.vault).1 [
        | answer skipped ↦
            set_page locked (record a { vault = (load_sync qt (load a.sync_file) a.vault).0 })
        | failure f ↦
            set_page login (record a { vault = (load_sync qt (load a.sync_file) a.vault).0 })
      ]
      else set_page login a

  -- The constructor: the settings and the files are those of the last run, and `clipboard` is the
  -- system's. A new vault is locked: what it loads emits nothing.
  unfoldable pub new_app : Settings → File → File → Bytes → App
  new_app settings sync_file pin_file clipboard = first_page (record {
    settings = settings;
    config = current_server_config qt settings;
    vault = set_auto_lock_seconds (to_seconds settings.auto_lock_minutes) new_vault;
    model = new_model;
    sync_file = sync_file;
    pin_file = pin_file;
    page = setup;
    busy = false;
    last_error = blank;
    two_factor_providers = [];
    access_token = [];
    refresh_token = settings.refresh_token;
    pending_hash = [];
    pending_secrets = none;
    clipboard = clipboard;
    clipboard_expected = [];
    clipboard_timer = false;
    derive = none;
    pin_work = none;
    calls = [];
    notices = [];
    crashed = false;
  })

  -- The auto-lock timer of the vault
  unfoldable pub auto_lock : App → App
  auto_lock a = with_vault qt (timeout a.vault) a

  unfoldable pub lock_app : App → App
  lock_app a =
      let b = with_vault qt (lock a.vault) a in
      set_page (if exists b.sync_file || not b.vault.locked then locked else login) b

  -- Minimising locks; `active` is `Qt::ApplicationActive`.
  unfoldable pub handle_app_state_changed : Bool → App → App
  handle_app_state_changed active a =
      if not active && (a.settings.lock_on_minimize && not a.vault.locked) then lock_app a else a

  unfoldable pub sign_out : World → App → App
  sign_out w a =
      let b = with_vault qt (lock a.vault) a in
      set_page login (
        forget_pin w (record b {
          access_token = [];
          refresh_token = [];
          settings = record b.settings { refresh_token = [] };
          sync_file = (clear w.sync_removed b.sync_file).0;
        }))

-- The timer runs, or keeps on running, only with more than no seconds.
unfoldable pub start_clipboard : ℤ → App → App
start_clipboard (pos zero) a = notify (words "Copied") a
start_clipboard (negsuc n) a = notify (words "Copied") a
start_clipboard (pos (suc n)) a =
    notify (copied_for (pos (suc n)))
      (record a { clipboard_timer = can_start (mul_int (pos (suc n)) 1000) })

unfoldable pub copy_to_clipboard : Bytes → App → App
copy_to_clipboard text a = note (
    start_clipboard a.settings.clipboard_seconds
      (record a { clipboard = text; clipboard_expected = text }))

-- The timeout of the clipboard timer
unfoldable pub clear_clipboard_if_ours : App → App
clear_clipboard_if_ours a =
    if bytes_equal a.clipboard a.clipboard_expected
    then record a { clipboard = []; clipboard_expected = []; clipboard_timer = false }
    else record a { clipboard_expected = []; clipboard_timer = false }
