-- ===== src/Ui/Controller.antt =====
-- src/ui/appcontroller.{h,cpp}: one step of the controller. A reply or a finished worker runs the
-- callback that was captured; which one comes first is open.
use harbour_leyni.Prelude.{
  ℕ, zero, suc, Bool, List, [], ◌∷◌, Option, none, some, Bytes, String, Result, if◌then◌else◌,
}
use harbour_leyni.Crypto.Primitives.{Primitives}
use harbour_leyni.Crypto.PinWrap.{unwrap_with_pin}
use harbour_leyni.Vault.Json.{ℤ}
use harbour_leyni.Vault.Qt.{Qt}
use harbour_leyni.Vault.Items.{CipherType}
use harbour_leyni.Vault.Write.{EditedItem, Ivs}
use harbour_leyni.Vault.ListModel.{set_search_query, set_folder_filter}
use harbour_leyni.Api.Client.{
  Request, Reply, finished_prelogin, finished_token, finished_send_email_login, finished_sync,
  finished_authed,
}
use harbour_leyni.Ui.State.{
  App, World, DerivedSecrets, DeriveNext, then_login, then_unlock, then_enable_pin, DeriveRun,
  PinRun, wrap, unwrap, Write, create, update, soft_delete, Call, prelogin_call, login_call,
  two_factor_call, email_code_call, login_sync_call, refresh_call, sync_call, write_call,
  refresh_write_call, retried_write_call, write_sync_call, note,
}
use harbour_leyni.Ui.Account.{
  set_auto_lock_minutes, configure_account, auto_lock, lock_app, handle_app_state_changed, sign_out,
  copy_to_clipboard, clear_clipboard_if_ours,
}
use harbour_leyni.Ui.Session.{
  derived_secrets, sync_now, refreshed, synced, unlock_app, derived_to_unlock,
}
use harbour_leyni.Ui.Login.{
  prelogin_done, login_answered, two_factor_answered, email_code_answered, cancel_login,
  start_login, derived_to_login, submit_two_factor, request_email_code, login_synced,
}
use harbour_leyni.Ui.Pin.{
  enable_pin, derived_to_enable_pin, wrapped_blob, pin_wrapped, disable_pin, unlock_with_pin,
  pin_unwrapped,
}
use harbour_leyni.Ui.Writes.{
  written, refreshed_to_write, finish_write, write_synced, create_item, save_item, delete_item,
}
use harbour_leyni.Ui.Items.{password_of, notes_of, totp_secret_of, detail_fields_of, totp_for}

pub data Event : Type 0 where
  auto_lock_minutes_set clipboard_seconds_set : ℤ → Event
  lock_on_minimize_set : Bool → Event
  account_configured : Bytes → Bytes → Event
  login_started : Bytes → Event
  two_factor_submitted : ℤ → Bytes → Bool → Event
  email_code_requested login_canceled : Event
  unlock_asked : Bytes → Event
  pin_chosen : Bytes → Bytes → Event
  pin_dropped : Event
  pin_entered : Bytes → Event
  lock_asked sync_asked signed_out : Event
  item_created : CipherType → EditedItem → Ivs → Event
  item_saved : Bytes → EditedItem → Ivs → Event
  item_deleted : Bytes → Event
  password_read notes_read totp_secret_read details_read totp_read : Bytes → Event
  search_typed folder_chosen : Bytes → Event
  text_copied : Bytes → Event
  clipboard_changed : Bytes → Event
  activity_noted : Event
  app_state_changed : Bool → Event
  auto_lock_timed_out clipboard_timed_out : Event
  replied : ℕ → Reply → Event
  derivation_finished pin_work_finished : Event

-- The call at a position, and the others.
unfoldable pub take_call : ℕ → List (Call × Request) → Option (Call × List (Call × Request))
take_call n [] = none
take_call zero ((call, request) ∷ calls) = some (call, calls)
take_call (suc n) (sent ∷ calls) = elim (take_call n calls) [
  | none ↦ none
  | some (call, others) ↦ some (call, sent ∷ others)
]

-- The words of a failed write: `opName` and "failed".
unfoldable pub failure_words : Write → String
failure_words (create body) = "create failed"
failure_words (update id body) = "update failed"
failure_words (soft_delete id) = "delete failed"

module _ (p : Primitives) (qt : Qt) where
  -- The callback of a reply
  unfoldable pub resume : World → Call → Reply → App → App
  resume w (prelogin_call password) reply a = prelogin_done password (finished_prelogin qt reply) a
  resume w login_call reply a = login_answered (finished_token qt reply) a
  resume w two_factor_call reply a = two_factor_answered (finished_token qt reply) a
  resume w email_code_call reply a = email_code_answered (finished_send_email_login reply) a
  resume w login_sync_call reply a = login_synced p qt w (finished_sync reply) a
  resume w (refresh_call fresh_login) reply a = refreshed fresh_login (finished_token qt reply) a
  resume w (sync_call fresh_login) reply a = synced p qt w fresh_login (finished_sync reply) a
  resume w (write_call write success) reply a =
      written qt write success (finished_authed (failure_words write) reply) a
  resume w (refresh_write_call write success) reply a =
      refreshed_to_write write success (finished_token qt reply) a
  resume w (retried_write_call write success) reply a =
      finish_write (finished_authed (failure_words write) reply) success a
  resume w (write_sync_call success) reply a = write_synced p qt w success (finished_sync reply) a

  -- The callback of a derivation
  unfoldable pub resume_next : World → DeriveNext → Result DerivedSecrets → App → App
  resume_next w then_login secrets a = derived_to_login qt w secrets a
  resume_next w then_unlock secrets a = derived_to_unlock p qt secrets a
  resume_next w (then_enable_pin pin) secrets a = derived_to_enable_pin p pin secrets a

  unfoldable pub resume_derived : World → DeriveRun → App → App
  resume_derived w run a = resume_next w run.next (derived_secrets p qt run) a

  unfoldable pub resume_pin : World → PinRun → App → App
  resume_pin w (wrap secret pin) a = pin_wrapped w (wrapped_blob p w secret pin) a
  resume_pin w (unwrap wrapped pin) a = pin_unwrapped p qt w (unwrap_with_pin p wrapped pin) a

  unfoldable pub answer_call : World → ℕ → Reply → App → App
  answer_call w n reply a = elim (take_call n a.calls) [
    | none ↦ a
    | some (call, others) ↦ resume w call reply (record a { calls = others })
  ]

  unfoldable pub finish_derivation : World → App → App
  finish_derivation w a = elim a.derive [
    | none ↦ a
    | some run ↦ resume_derived w run (record a { derive = none })
  ]

  unfoldable pub finish_pin_work : World → App → App
  finish_pin_work w a = elim a.pin_work [
    | none ↦ a
    | some work ↦ resume_pin w work (record a { pin_work = none })
  ]

  unfoldable pub react : World → Event → App → App
  react w (auto_lock_minutes_set minutes) a = set_auto_lock_minutes minutes a
  react w (clipboard_seconds_set seconds) a = record a {
    settings = record a.settings { clipboard_seconds = seconds };
  }
  react w (lock_on_minimize_set on) a = record a {
    settings = record a.settings { lock_on_minimize = on };
  }
  react w (account_configured server_url email) a = configure_account qt server_url email a
  react w (login_started password) a = start_login qt password a
  react w (two_factor_submitted provider code remember) a =
      submit_two_factor qt w provider code remember a
  react w email_code_requested a = request_email_code qt w a
  react w login_canceled a = cancel_login a
  react w (unlock_asked password) a = unlock_app password a
  react w (pin_chosen master_password pin) a = enable_pin qt master_password pin a
  react w pin_dropped a = disable_pin w a
  react w (pin_entered pin) a = unlock_with_pin w pin a
  react w lock_asked a = lock_app qt a
  react w sync_asked a = sync_now qt a
  react w signed_out a = sign_out qt w a
  react w (item_created type fields ivs) a = create_item p qt type fields ivs a
  react w (item_saved item_id fields ivs) a = save_item p qt item_id fields ivs a
  react w (item_deleted item_id) a = delete_item qt item_id a
  react w (password_read item_id) a = (password_of p qt item_id a).0
  react w (notes_read item_id) a = (notes_of p qt item_id a).0
  react w (totp_secret_read item_id) a = (totp_secret_of p qt item_id a).0
  react w (details_read item_id) a = (detail_fields_of p qt item_id a).0
  react w (totp_read item_id) a = (totp_for p w item_id a).0
  react w (search_typed text) a = record a { model = (set_search_query qt text a.model).0 }
  react w (folder_chosen id) a = record a { model = (set_folder_filter qt id a.model).0 }
  react w (text_copied text) a = copy_to_clipboard text a
  react w (clipboard_changed text) a = record a { clipboard = text }
  react w activity_noted a = note a
  react w (app_state_changed active) a = handle_app_state_changed qt active a
  react w auto_lock_timed_out a = auto_lock qt a
  react w clipboard_timed_out a = if a.clipboard_timer then clear_clipboard_if_ours a else a
  react w (replied n reply) a = answer_call w n reply a
  react w derivation_finished a = finish_derivation w a
  react w pin_work_finished a = finish_pin_work w a

  -- A program that has crashed makes no step.
  unfoldable pub step : World → Event → App → App
  step w event a = let next = react w event a in if a.crashed then a else next
