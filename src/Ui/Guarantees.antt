-- ===== src/Ui/Guarantees.antt =====
-- What the controller guarantees in every state that it reaches: sealed vaults, and limited PINs.
use harbour_leyni.Prelude.{
  refl, arith, Bool, true, false, ◌||◌, none, some, bytes_equal, is_empty, either,
}
use harbour_leyni.Crypto.Primitives.{Primitives}
use harbour_leyni.Vault.Qt.{Qt}
use harbour_leyni.Vault.Items.{answered}
use harbour_leyni.Vault.State.{new_vault}
use harbour_leyni.Vault.Write.{build_create_body, build_update_body}
use harbour_leyni.Vault.Session.Invariant.{new_vault-IsVault, set_auto_lock_seconds-IsVault}
use harbour_leyni.Vault.Session.Timer.{set_auto_lock_seconds-Obeys}
use harbour_leyni.Ui.State.{
  Page, locked, unlocked, login, Settings, App, World, set_page, set_busy, note, with_vault,
  to_seconds,
}
use harbour_leyni.Ui.Account.{
  configure_account, new_app, lock_app, handle_app_state_changed, forget_pin, sign_out,
  copy_to_clipboard, clear_clipboard_if_ours,
}
use harbour_leyni.Ui.Session.{refresh_and_sync, sync_now}
use harbour_leyni.Ui.Login.{start_login, cancel_login, submit_two_factor, request_email_code}
use harbour_leyni.Ui.Pin.{disable_pin}
use harbour_leyni.Ui.Writes.{create_item, save_item, delete_item}
use harbour_leyni.Ui.Items.{password_of, notes_of, totp_secret_of, detail_fields_of, totp_for}
use harbour_leyni.Ui.Controller.{Event, react, step}
use harbour_leyni.Ui.Safety.{IsSound, kept, turned}
use harbour_leyni.Ui.SafeSteps.{
  away, device_info-IsSound, set_auto_lock_minutes-IsSound, note-IsSound, lock_app-IsSound,
  handle_app_state_changed-IsSound, sign_out-IsSound, auto_lock-IsSound,
}
use harbour_leyni.Ui.SafeReplies.{begin_write-IsSound, if_unlocked-IsSound}
use harbour_leyni.Ui.Invariant.{
  first_page-IsSound, answer_call-IsSound, workers-IsSound, told-IsSound, start_clipboard-IsSound,
  unlock_app-IsSound, enable_pin-IsSound, unlock_with_pin-IsSound,
}
use harbour_leyni.Ui.Reachable.{Reachable, start, next}

module _ (p : Primitives) (qt : Qt) where
  react-IsSound : (w : World) (event : Event) (a : App) → IsSound a → IsSound (react p qt w event a)
  unfolding react configure_account start_login submit_two_factor request_email_code cancel_login
      disable_pin forget_pin sync_now refresh_and_sync create_item save_item delete_item password_of
      notes_of totp_secret_of detail_fields_of totp_for copy_to_clipboard clear_clipboard_if_ours
  react-IsSound w (Event.auto_lock_minutes_set minutes) a h =
      set_auto_lock_minutes-IsSound minutes a h
  react-IsSound w (Event.clipboard_seconds_set seconds) a h = kept a _ refl refl refl refl h
  react-IsSound w (Event.lock_on_minimize_set on) a h = kept a _ refl refl refl refl h
  react-IsSound w (Event.account_configured server_url email) a h =
      away a _ refl refl (λ shown. cc shown) refl h
  react-IsSound w (Event.login_started password) a h =
      either IsSound (is_empty a.settings.email) (λ none_set. kept a _ refl refl refl refl h)
        (λ some_set. kept a _ refl refl refl refl h)
  react-IsSound w (Event.two_factor_submitted provider code remember) a h =
      let begun : App =
        set_busy true (harbour_leyni.Ui.State.set_error harbour_leyni.Ui.State.blank a) in
      either IsSound
        ((elim a.pending_secrets as (λ o. Bool) [ none ↦ true | some secrets ↦ false ])
          || is_empty a.pending_hash)
        (λ none_asked. kept a _ refl refl refl refl h)
        (λ asked.
          kept (harbour_leyni.Ui.Account.device_info w begun).0 _ refl refl refl refl
            (device_info-IsSound w begun (kept a _ refl refl refl refl h)))
  react-IsSound w Event.email_code_requested a h =
      either IsSound (is_empty a.pending_hash) (λ none_asked. kept a _ refl refl refl refl h)
        (λ asked.
          kept (harbour_leyni.Ui.Account.device_info w a).0 _ refl refl refl refl
            (device_info-IsSound w a h))
  react-IsSound w Event.login_canceled a h = away a _ refl refl (λ shown. cc shown) refl h
  react-IsSound w (Event.unlock_asked password) a h = unlock_app-IsSound p qt password a h
  react-IsSound w (Event.pin_chosen password pin) a h = enable_pin-IsSound p qt password pin a h
  react-IsSound w Event.pin_dropped a h = turned a _ refl refl h.page_open (omega arith) h
  react-IsSound w (Event.pin_entered pin) a h = unlock_with_pin-IsSound p qt w pin a h
  react-IsSound w Event.lock_asked a h = lock_app-IsSound qt a h
  react-IsSound w Event.sync_asked a h =
      either IsSound (is_empty a.refresh_token) (λ none_left. kept a _ refl refl refl refl h)
        (λ some_left. kept a _ refl refl refl refl h)
  react-IsSound w Event.signed_out a h = sign_out-IsSound qt w a h
  react-IsSound w (Event.item_created type fields ivs) a h =
      if_unlocked-IsSound _ a
        (answered IsSound (build_create_body p qt type fields ivs a.vault)
          (λ body built. begin_write-IsSound qt _ _ a h)
          (λ f failed. kept a _ refl refl refl refl h))
        h
  react-IsSound w (Event.item_saved item_id fields ivs) a h =
      if_unlocked-IsSound _ a
        (answered IsSound (build_update_body p qt item_id fields ivs a.vault)
          (λ body built. begin_write-IsSound qt _ _ a h)
          (λ f failed. kept a _ refl refl refl refl h))
        h
  react-IsSound w (Event.item_deleted item_id) a h =
      if_unlocked-IsSound _ a (begin_write-IsSound qt _ _ a h) h
  react-IsSound w (Event.password_read item_id) a h =
      told-IsSound p qt _ (note a) (note-IsSound a h)
  react-IsSound w (Event.notes_read item_id) a h = note-IsSound a h
  react-IsSound w (Event.totp_secret_read item_id) a h =
      told-IsSound p qt _ (note a) (note-IsSound a h)
  react-IsSound w (Event.details_read item_id) a h = note-IsSound a h
  react-IsSound w (Event.totp_read item_id) a h = note-IsSound a h
  react-IsSound w (Event.search_typed text) a h = kept a _ refl refl refl refl h
  react-IsSound w (Event.folder_chosen id) a h = kept a _ refl refl refl refl h
  react-IsSound w (Event.text_copied text) a h =
      note-IsSound _ (
        start_clipboard-IsSound p qt a.settings.clipboard_seconds _
          (kept a _ refl refl refl refl h))
  react-IsSound w (Event.clipboard_changed text) a h = kept a _ refl refl refl refl h
  react-IsSound w Event.activity_noted a h = note-IsSound a h
  react-IsSound w (Event.app_state_changed active) a h =
      handle_app_state_changed-IsSound qt active a h
  react-IsSound w Event.auto_lock_timed_out a h = auto_lock-IsSound qt a h
  react-IsSound w Event.clipboard_timed_out a h =
      either IsSound a.clipboard_timer
        (λ runs.
          either IsSound (bytes_equal a.clipboard a.clipboard_expected)
            (λ ours. kept a _ refl refl refl refl h) (λ other. kept a _ refl refl refl refl h))
        (λ stopped. h)
  react-IsSound w (Event.replied n reply) a h = answer_call-IsSound p qt w n reply a h
  react-IsSound w Event.derivation_finished a h = (workers-IsSound p qt w a h).0
  react-IsSound w Event.pin_work_finished a h = (workers-IsSound p qt w a h).1

  -- In every state that steps lead to from a start with a stored count of wrong PINs below three: the
  -- vault is sealed or has its keys; the interval of its timer is that of the minutes in the settings,
  -- as 32-bit numbers that wrap around, 0 if the seconds are not above 0; the timer runs only if they
  -- are above 0, and of an open vault it runs if the interval is above 0 and does not if it is
  -- negative; while the page is "unlocked" the vault is open; and the count is below three.
  pub Reachable-IsSound : (a : App) → Reachable p qt a → IsSound a
  unfolding new_app step
  Reachable-IsSound _ (start settings sync_file pin_file clipboard few) =
      first_page-IsSound qt _
        (set_auto_lock_seconds-IsVault (to_seconds settings.auto_lock_minutes) new_vault
          new_vault-IsVault)
        few (set_auto_lock_seconds-Obeys (to_seconds settings.auto_lock_minutes) new_vault)
  Reachable-IsSound _ (next w event a before) =
      let h = Reachable-IsSound a before in
      either IsSound a.crashed (λ dead. h) (λ alive. react-IsSound w event a h)
