-- ===== src/Ui/SafeSteps.antt =====
-- Every handler of the controller keeps the invariant.
use harbour_leyni.Prelude.{
  ◌+◌, ◌≤◌, ◌≡◌, refl, ap, ◌∙◌, arith, leb, Bool, true, false, ◌&&◌, ◌||◌, not, Bytes, String,
  is_empty, either, maybe, if◌then◌else◌, Result, err, ok,
}
use harbour_leyni.Crypto.Primitives.{Primitives}
use harbour_leyni.Crypto.Kdf.Params.{KdfParams}
use harbour_leyni.Vault.Json.{ℤ}
use harbour_leyni.Vault.Int.{is_positive}
use harbour_leyni.Vault.Qt.{Qt}
use harbour_leyni.Vault.Items.{Answer, answer, answered}
use harbour_leyni.Vault.State.{Vault, lock, timeout, note_activity, set_auto_lock_seconds}
use harbour_leyni.Vault.Stores.{save, exists}
use harbour_leyni.Vault.Session.{load_sync, unlock_with_master_key, reload_sync}
use harbour_leyni.Vault.Session.Invariant.{
  lock-IsVault, timeout-IsVault, note_activity-IsVault, set_auto_lock_seconds-IsVault,
}
use harbour_leyni.Vault.Session.Preserve.{load_sync-IsVault, unlock_with_master_key-IsVault}
use harbour_leyni.Vault.Session.Reload.{reload_sync-IsVault}
use harbour_leyni.Vault.Session.Unlock.{unlock_with_master_key_sound}
use harbour_leyni.Vault.Session.Timer.{SameTimer-Obeys, set_auto_lock_seconds-Obeys}
use harbour_leyni.Vault.Session.Signals.{
  lock-Emits, timeout-Emits, load_sync-Emits, unlock_with_master_key-Emits, reload_sync-Emits,
  note_activity-Emits,
}
use harbour_leyni.Api.Types.{Outcome, is_ok, DeviceInfo}
use harbour_leyni.Ui.State.{
  Page, login, locked, unlocked, App, World, DerivedSecrets, DeriveNext, PinRun, set_page, set_busy,
  refresh_model, with_vault, note, to_seconds,
}
use harbour_leyni.Ui.Account.{
  device_info, set_auto_lock_minutes, lock_app, handle_app_state_changed, forget_pin, sign_out,
  auto_lock,
}
use harbour_leyni.Ui.Session.{
  derive_async, store_blob, reload_blob, enter_with, enter, load_blob, apply_sync_blob, unlock_with,
  derived_to_unlock,
}
use harbour_leyni.Ui.Pin.{
  set_pin_failures, run_pin_worker, count_wrong_pin, unlock_with_pin_key, pin_unwrapped,
}
use harbour_leyni.Ui.Writes.{apply_write_sync, write_synced}
use harbour_leyni.Ui.Login.{login_synced}
use harbour_leyni.Ui.Safety.{IsSound, with_vault-SameRest, with_vault-IsSound, kept, turned}

-- Where the page is not "unlocked", nothing is asked of the vault.
pub away :
    (a b : App)
    → b.vault ≡ a.vault
    → b.settings.auto_lock_minutes ≡ a.settings.auto_lock_minutes
    → (b.page ≡ unlocked → 1 ≤ 0)
    → b.settings.pin_failures ≡ a.settings.pin_failures
    → IsSound a
    → IsSound b
away a b vault minutes other failures h =
    turned a b vault minutes (λ shown. absurd (omega (arith, other shown)))
      (omega (arith, failures, h.few_failures)) h

pub derive_async-IsSound :
    (password : Bytes) (params : KdfParams) (next : DeriveNext) (a : App)
    → IsSound a
    → IsSound (derive_async password params next a)
unfolding derive_async
derive_async-IsSound password params next a h =
    maybe IsSound a.derive (λ none_runs. kept a _ refl refl refl refl h)
      (λ run runs. kept a _ refl refl refl refl h)

pub run_pin_worker-IsSound : (work : PinRun) (a : App) → IsSound a → IsSound (run_pin_worker work a)
unfolding run_pin_worker
run_pin_worker-IsSound work a h =
    maybe IsSound a.pin_work (λ none_runs. kept a _ refl refl refl refl h)
      (λ run runs. kept a _ refl refl refl refl h)

pub device_info-IsSound : (w : World) (a : App) → IsSound a → IsSound (device_info w a).0
unfolding device_info
device_info-IsSound w a h =
    either (λ (r : App × DeviceInfo). IsSound r.0) (is_empty a.settings.device_id)
      (λ new. kept a _ refl refl refl refl h) (λ old. h)

note_activity-locked : (v : Vault) → (note_activity v).locked ≡ v.locked
unfolding note_activity
note_activity-locked v =
    either (λ (u : Vault). u.locked ≡ v.locked) (not v.locked && is_positive v.timer_interval)
      (λ starts. refl) (λ stays. refl)

set_auto_lock_seconds-locked :
    (seconds : ℤ) (v : Vault) → (set_auto_lock_seconds seconds v).locked ≡ v.locked
unfolding set_auto_lock_seconds
set_auto_lock_seconds-locked seconds v =
    either (λ (u : Vault). u.locked ≡ v.locked) (is_positive seconds) (λ some_time. refl)
      (λ no_time. refl)

pub set_auto_lock_minutes-IsSound :
    (minutes : ℤ) (a : App) → IsSound a → IsSound (set_auto_lock_minutes minutes a)
unfolding set_auto_lock_minutes
set_auto_lock_minutes-IsSound minutes a h = record {
  is_vault = set_auto_lock_seconds-IsVault (to_seconds minutes) a.vault h.is_vault;
  page_open =
      λ shown. set_auto_lock_seconds-locked (to_seconds minutes) a.vault ∙ h.page_open shown;
  few_failures = h.few_failures;
  obeys = set_auto_lock_seconds-Obeys (to_seconds minutes) a.vault;
}

pub note-IsSound : (a : App) → IsSound a → IsSound (note a)
unfolding note
note-IsSound a h = record {
  is_vault = note_activity-IsVault a.vault h.is_vault;
  page_open = λ shown. note_activity-locked a.vault ∙ h.page_open shown;
  few_failures = h.few_failures;
  obeys =
      let (news, told, timer) = note_activity-Emits a.vault in
      SameTimer-Obeys _ a.vault _ h.obeys timer;
}

module _ (qt : Qt) where
  locked-IsSound : (a : App) → IsSound a → IsSound (with_vault qt (lock a.vault) a)
  locked-IsSound a h =
      with_vault-IsSound qt (lock a.vault) a h (lock-IsVault a.vault h.is_vault.signals)
        (lock-Emits a.vault)

  pub lock_app-IsSound : (a : App) → IsSound a → IsSound (lock_app qt a)
  unfolding lock_app
  lock_app-IsSound a h =
      let b = with_vault qt (lock a.vault) a in
      let page = if exists b.sync_file || not b.vault.locked then locked else login in
      away b (set_page page b) refl refl
        (either (λ (g : Page). g ≡ unlocked → 1 ≤ 0) (exists b.sync_file || not b.vault.locked)
          (λ there. cc) (λ missing. cc))
        refl (locked-IsSound a h)

  pub handle_app_state_changed-IsSound :
      (active : Bool) (a : App) → IsSound a → IsSound (handle_app_state_changed qt active a)
  unfolding handle_app_state_changed
  handle_app_state_changed-IsSound active a h =
      either IsSound (not active && (a.settings.lock_on_minimize && not a.vault.locked))
        (λ leaves. lock_app-IsSound a h) (λ stays. h)

  pub sign_out-IsSound : (w : World) (a : App) → IsSound a → IsSound (sign_out qt w a)
  unfolding sign_out forget_pin
  sign_out-IsSound w a h =
      let b = with_vault qt (lock a.vault) a in
      turned b _ refl refl (λ shown. cc shown) (omega arith) (locked-IsSound a h)

  pub auto_lock-IsSound : (a : App) → IsSound a → IsSound (auto_lock qt a)
  unfolding auto_lock
  auto_lock-IsSound a h =
      with_vault-IsSound qt (timeout a.vault) a h (timeout-IsVault a.vault h.is_vault)
        (timeout-Emits a.vault)

pub store_blob-IsSound :
    (w : World) (blob : Bytes) (a : App) → IsSound a → IsSound (store_blob w blob a)
unfolding store_blob
store_blob-IsSound w blob a h =
    either IsSound (save w.sync_writing blob a.sync_file).1
      (λ saved. kept a _ refl refl refl refl h) (λ lost. kept a _ refl refl refl refl h)

module _ (p : Primitives) (qt : Qt) where
  -- An attempt to unlock, with its slots
  tried-IsSound :
      (key : Bytes) (a : App)
      → IsSound a
      → IsSound (with_vault qt (unlock_with_master_key p qt key a.vault).0 a)
  tried-IsSound key a h =
      with_vault-IsSound qt _ a h (unlock_with_master_key-IsVault p qt key a.vault h.is_vault)
        (unlock_with_master_key-Emits p qt key a.vault)

  -- After one that succeeds, the page may be "unlocked".
  opens :
      (key : Bytes) (a : App) {done : Unit {0}}
      → (unlock_with_master_key p qt key a.vault).1 ≡ answer done
      → (with_vault qt (unlock_with_master_key p qt key a.vault).0 a).vault.locked ≡ false
  opens key a good =
      let w = (unlock_with_master_key p qt key a.vault).0 in
      let (verified, decrypts, same, is_open) =
        unlock_with_master_key_sound p qt key a.vault {w = w}
          (ap (λ (r : Answer (Unit {0})). (w, r)) good) in
      ap (λ (v : Vault). v.locked) (with_vault-SameRest qt w a).same_vault ∙ is_open

  enter_with-IsSound : (key : Bytes) (a : App) → IsSound a → IsSound (enter_with p qt key a)
  unfolding enter_with refresh_model
  enter_with-IsSound key a h =
      let tried = tried-IsSound key a h in
      answered IsSound (unlock_with_master_key p qt key a.vault).1
        (λ done good. turned _ _ refl refl (λ shown. opens key a good) tried.few_failures tried)
        (λ f bad. away _ _ refl refl (λ shown. cc shown) refl tried)

  unlock_with-IsSound : (key : Bytes) (a : App) → IsSound a → IsSound (unlock_with p qt key a)
  unfolding unlock_with refresh_model
  unlock_with-IsSound key a h =
      let tried = tried-IsSound key a h in
      answered IsSound (unlock_with_master_key p qt key a.vault).1
        (λ done good. turned _ _ refl refl (λ shown. opens key a good) tried.few_failures tried)
        (λ f bad. kept _ _ refl refl refl refl tried)

  unlock_with_pin_key-IsSound :
      (w : World) (key : Bytes) (a : App) → IsSound a → IsSound (unlock_with_pin_key p qt w key a)
  unfolding unlock_with_pin_key refresh_model set_pin_failures forget_pin
  unlock_with_pin_key-IsSound w key a h =
      let tried = tried-IsSound key a h in
      answered IsSound (unlock_with_master_key p qt key a.vault).1
        (λ done good. turned _ _ refl refl (λ shown. opens key a good) (omega arith) tried)
        (λ f bad. turned _ _ refl refl tried.page_open (omega arith) tried)

  pub pin_unwrapped-IsSound :
      (w : World) (key : Result Bytes) (a : App) → IsSound a → IsSound (pin_unwrapped p qt w key a)
  unfolding pin_unwrapped count_wrong_pin set_pin_failures forget_pin
  pin_unwrapped-IsSound w (err e) a h =
      either IsSound (leb 3 (a.settings.pin_failures + 1))
        (λ wiped. turned a _ refl refl h.page_open (omega arith) h)
        (λ counted. turned a _ refl refl h.page_open (ground (arith, counted)) h)
  pin_unwrapped-IsSound w (ok key) a h =
      unlock_with_pin_key-IsSound w key (set_busy false a) (kept a _ refl refl refl refl h)

  reload_blob-IsSound : (blob : Bytes) (a : App) → IsSound a → IsSound (reload_blob p qt blob a)
  unfolding reload_blob refresh_model
  reload_blob-IsSound blob a h =
      let heard =
        with_vault-IsSound qt _ a h (reload_sync-IsVault p qt blob a.vault h.is_vault)
          (reload_sync-Emits p qt blob a.vault) in
      answered IsSound (reload_sync p qt blob a.vault).1
        (λ n good. kept _ _ refl refl refl refl heard)
        (λ f bad. away _ _ refl refl (λ shown. cc shown) refl heard)

  enter-IsSound : (fresh : Bool) (a : App) → IsSound a → IsSound (enter p qt fresh a)
  unfolding enter
  enter-IsSound false a h = away a _ refl refl (λ shown. cc shown) refl h
  enter-IsSound true a h =
      maybe IsSound a.pending_secrets
        (λ none_pending. away a _ refl refl (λ shown. cc shown) refl h)
        (λ secrets pending.
          enter_with-IsSound secrets.master_key _ (kept a _ refl refl refl refl h))

  load_blob-IsSound :
      (fresh : Bool) (blob : Bytes) (a : App) → IsSound a → IsSound (load_blob p qt fresh blob a)
  unfolding load_blob
  load_blob-IsSound fresh blob a h =
      let heard =
        with_vault-IsSound qt _ a h (load_sync-IsVault qt blob a.vault h.is_vault)
          (load_sync-Emits qt blob a.vault) in
      answered IsSound (load_sync qt blob a.vault).1 (λ n good. enter-IsSound fresh _ heard)
        (λ f bad. kept _ _ refl refl refl refl heard)

  pub apply_sync_blob-IsSound :
      (w : World) (blob : Bytes) (fresh : Bool) (a : App)
      → IsSound a
      → IsSound (apply_sync_blob p qt w blob fresh a)
  unfolding apply_sync_blob
  apply_sync_blob-IsSound w blob fresh a h =
      let stored = store_blob-IsSound w blob a h in
      let s = store_blob w blob a in
      either (λ (b : App). IsSound (set_busy false b)) (not s.vault.locked)
        (λ unlocked.
          kept (reload_blob p qt blob s) _ refl refl refl refl (reload_blob-IsSound blob s stored))
        (λ locked.
          kept (load_blob p qt fresh blob s) _ refl refl refl refl
            (load_blob-IsSound fresh blob s stored))

  pub login_synced-IsSound :
      (w : World) (result : Outcome Bytes) (a : App)
      → IsSound a
      → IsSound (login_synced p qt w result a)
  unfolding login_synced
  login_synced-IsSound w result a h =
      either IsSound (not (is_ok result)) (λ bad. away a _ refl refl (λ shown. cc shown) refl h)
        (λ good. apply_sync_blob-IsSound w result.value true a h)

  pub write_synced-IsSound :
      (w : World) (success : String) (result : Outcome Bytes) (a : App)
      → IsSound a
      → IsSound (write_synced p qt w success result a)
  unfolding write_synced apply_write_sync refresh_model
  write_synced-IsSound w success result a h =
      let s = store_blob w result.value (set_busy false a) in
      let stored =
        store_blob-IsSound w result.value (set_busy false a) (kept a _ refl refl refl refl h) in
      let heard =
        with_vault-IsSound qt _ s stored
          (reload_sync-IsVault p qt result.value s.vault stored.is_vault)
          (reload_sync-Emits p qt result.value s.vault) in
      either IsSound (not (is_ok result)) (λ bad. kept a _ refl refl refl refl h)
        (λ good.
          answered IsSound (reload_sync p qt result.value s.vault).1
            (λ n taken. kept _ _ refl refl refl refl heard)
            (λ f refused. away _ _ refl refl (λ shown. cc shown) refl heard))

  pub derived_to_unlock-IsSound :
      (secrets : Result DerivedSecrets) (a : App)
      → IsSound a
      → IsSound (derived_to_unlock p qt secrets a)
  unfolding derived_to_unlock
  derived_to_unlock-IsSound (err e) a h = kept a _ refl refl refl refl h
  derived_to_unlock-IsSound (ok secrets) a h =
      unlock_with-IsSound secrets.master_key _ (kept a _ refl refl refl refl h)
