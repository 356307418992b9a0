-- ===== src/Ui/Liveness.antt =====
-- Every step of the controller keeps what is said of a busy program, and a wait has an end.
use harbour_leyni.Prelude.{
  ℕ, zero, suc, ◌≤◌, ◌≡◌, refl, sym, ◌∙◌, arith, Bool, true, false, ◌||◌, ◌&&◌, ◌==◌, not, ltb,
  none, some, Option-cases, inl, inr, Bytes, bytes_equal, String, is_empty, either, if◌then◌else◌,
  Result-cases,
}
use harbour_leyni.Crypto.Primitives.{Primitives}
use harbour_leyni.Crypto.PinWrap.{parse}
use harbour_leyni.Vault.Json.{ℤ, pos, negsuc}
use harbour_leyni.Vault.Qt.{Qt}
use harbour_leyni.Vault.Items.{Answer, answer, failure, answered}
use harbour_leyni.Vault.State.{lock, timeout}
use harbour_leyni.Vault.Stores.{exists, load}
use harbour_leyni.Vault.Write.{build_create_body, build_update_body}
use harbour_leyni.Vault.Access.{item_password, item_totp_secret}
use harbour_leyni.Api.Client.{Request, Reply}
use harbour_leyni.Ui.State.{
  App, World, then_unlock, then_enable_pin, unwrap, Write, Call, prelogin_call, two_factor_call,
  email_code_call, refresh_call, write_call, refresh_write_call, set_busy, set_error, await, note,
  blank,
}
use harbour_leyni.Ui.Account.{
  device_info, set_auto_lock_minutes, configure_account, auto_lock, lock_app,
  handle_app_state_changed, forget_pin, sign_out, start_clipboard, copy_to_clipboard,
  clear_clipboard_if_ours,
}
use harbour_leyni.Ui.Session.{refresh_and_sync, sync_now, unlock_app}
use harbour_leyni.Ui.Login.{start_login, submit_two_factor, request_email_code, cancel_login}
use harbour_leyni.Ui.Pin.{enable_pin, disable_pin, unlock_with_pin}
use harbour_leyni.Ui.Writes.{
  refresh_then_write, write_and_resync, begin_write, is_unlocked, if_unlocked, create_item,
  save_item, delete_item,
}
use harbour_leyni.Ui.Items.{told, password_of, notes_of, totp_secret_of, detail_fields_of, totp_for}
use harbour_leyni.Ui.Controller.{Event, take_call, answer_call, react}
use harbour_leyni.Ui.Jobs.{
  work, Waits, SameJobs, with_vault-SameJobs, SameJobs-work, derive_async-Leads,
  run_pin_worker-Leads, call_work, calls_work-append,
}
use harbour_leyni.Ui.Callbacks.{device_info-SameJobs}
use harbour_leyni.Ui.Waiting.{answer_call-Nearer, finish_derivation-Waits, finish_pin_work-Waits}

-- As `Waits`, of a program that runs.
abbrev Works : App → Type 0
Works a = a.busy ≡ true → 1 ≤ work a

same-Waits : (a b : App) → Works a → SameJobs a b → Waits b
same-Waits a b h s =
    λ alive busy. let same = SameJobs-work a b s in omega (arith, same, h (sym s.same_busy ∙ busy))

-- A request that is sent is waited for.
awaiting :
    (call : Call) (request : Request) (a : App) → 1 ≤ call_work call → Waits (await call request a)
awaiting call request a h = λ alive busy. omega (arith, calls_work-append a.calls call request, h)

module _ (qt : Qt) where
  lock_app-SameJobs : (a : App) → SameJobs a (lock_app qt a)
  unfolding lock_app
  lock_app-SameJobs a =
      let h = with_vault-SameJobs qt (lock a.vault) a in
      record {
        same_calls = h.same_calls;
        same_derive = h.same_derive;
        same_pin_work = h.same_pin_work;
        same_busy = h.same_busy;
      }

  handle_app_state_changed-SameJobs :
      (active : Bool) (a : App) → SameJobs a (handle_app_state_changed qt active a)
  unfolding handle_app_state_changed
  handle_app_state_changed-SameJobs active a =
      either (SameJobs a) (not active && (a.settings.lock_on_minimize && not a.vault.locked))
        (λ leaves. lock_app-SameJobs a)
        (λ stays. record {
          same_calls = refl;
          same_derive = refl;
          same_pin_work = refl;
          same_busy = refl;
        })

  sign_out-SameJobs : (w : World) (a : App) → SameJobs a (sign_out qt w a)
  unfolding sign_out forget_pin
  sign_out-SameJobs w a =
      let h = with_vault-SameJobs qt (lock a.vault) a in
      record {
        same_calls = h.same_calls;
        same_derive = h.same_derive;
        same_pin_work = h.same_pin_work;
        same_busy = h.same_busy;
      }

  start_login-Waits : (password : Bytes) (a : App) → Works a → Waits (start_login qt password a)
  unfolding start_login
  start_login-Waits password a h =
      either Waits (is_empty a.settings.email) (λ none_set alive. h)
        (λ some_set.
          awaiting (prelogin_call password) _ (set_busy true (set_error blank a)) (omega arith))

  submit_two_factor-Waits :
      (w : World) (provider : ℤ) (code : Bytes) (remember : Bool) (a : App)
      → Works a
      → Waits (submit_two_factor qt w provider code remember a)
  unfolding submit_two_factor
  submit_two_factor-Waits w provider code remember a h =
      let begun : App = set_busy true (set_error blank a) in
      either Waits
        ((elim a.pending_secrets as (λ o. Bool) [ none ↦ true | some secrets ↦ false ])
          || is_empty a.pending_hash)
        (λ none_asked alive. h)
        (λ asked. awaiting two_factor_call _ (device_info w begun).0 (omega arith))

  request_email_code-Waits : (w : World) (a : App) → Works a → Waits (request_email_code qt w a)
  unfolding request_email_code
  request_email_code-Waits w a h =
      let s = device_info-SameJobs w a in
      let same = SameJobs-work a (device_info w a).0 s in
      either Waits (is_empty a.pending_hash) (λ none_asked alive. h)
        (λ asked alive busy. omega (
          arith,
          calls_work-append (device_info w a).0.calls email_code_call _,
          same,
          h (sym s.same_busy ∙ busy),
        ))

  sync_now-Waits : (a : App) → Works a → Waits (sync_now qt a)
  unfolding sync_now refresh_and_sync
  sync_now-Waits a h =
      either Waits (is_empty a.refresh_token) (λ none_left alive. h)
        (λ some_left.
          awaiting (refresh_call false) _ (set_busy true (set_error blank a)) (omega arith))

  unlock_app-Waits : (password : Bytes) (a : App) → Works a → Waits (unlock_app password a)
  unfolding unlock_app
  unlock_app-Waits password a h =
      let begun : App = set_busy true (set_error blank a) in
      either Waits (if a.vault.locked then not (exists a.sync_file) else false)
        (λ none_there alive. h)
        (λ there.
          either Waits (a.settings.kdf.iterations == 0) (λ none_stored alive. h)
            (λ stored.
              (derive_async-Leads 5 password a.settings.kdf then_unlock begun (omega arith)).waits))

  enable_pin-Waits :
      (password pin : Bytes) (a : App) → Works a → Waits (enable_pin qt password pin a)
  unfolding enable_pin
  enable_pin-Waits password pin a h =
      let begun : App = set_busy true (set_error blank a) in
      either Waits (ltb (qt.size pin) 4) (λ short alive. h)
        (λ long.
          either Waits (not (exists a.sync_file)) (λ none_there alive. h)
            (λ there.
              either Waits (a.settings.kdf.iterations == 0) (λ none_stored alive. h)
                (λ stored.
                  (derive_async-Leads 5 password a.settings.kdf (then_enable_pin pin) begun
                    (omega arith)).waits)))

  unlock_with_pin-Waits :
      (w : World) (pin : Bytes) (a : App) → Works a → Waits (unlock_with_pin w pin a)
  unfolding unlock_with_pin forget_pin
  unlock_with_pin-Waits w pin a h =
      let begun : App = set_busy true (set_error blank a) in
      either Waits (not (exists a.pin_file)) (λ none_set alive. h)
        (λ some_set.
          either Waits (not (exists a.sync_file)) (λ none_there alive. h)
            (λ there. elim (Result-cases (parse (load a.pin_file))) [
              | inr (e, bad) ↦ rw bad (λ alive. h)
              | inl (wrapped, good) ↦
                  rw good ((run_pin_worker-Leads 5 (unwrap wrapped pin) begun (omega arith)).waits)
            ]))

  begin_write-Waits :
      (write : Write) (success : String) (a : App) → Waits (begin_write qt write success a)
  unfolding begin_write write_and_resync refresh_then_write note
  begin_write-Waits write success a =
      let begun : App = set_busy true (set_error blank (note a)) in
      either Waits (is_empty a.access_token)
        (λ none_left.
          either Waits (is_empty a.refresh_token) (λ signed_out alive. cc)
            (λ signed_in. awaiting (refresh_write_call write success) _ begun (omega arith)))
        (λ some_left. awaiting (write_call write success) _ begun (omega arith))

  if_unlocked-Waits :
      (next : App → App) (a : App) → Waits (next a) → Works a → Waits (if_unlocked next a)
  unfolding if_unlocked
  if_unlocked-Waits next a begun h =
      either Waits (not (is_unlocked a.page)) (λ locked alive. h) (λ unlocked. begun)

  told-SameJobs : (r : Answer Bytes) (a : App) → SameJobs a (told r (note a)).0
  unfolding told note
  told-SameJobs (answer text) a = record {
    same_calls = refl;
    same_derive = refl;
    same_pin_work = refl;
    same_busy = refl;
  }
  told-SameJobs (failure f) a = record {
    same_calls = refl;
    same_derive = refl;
    same_pin_work = refl;
    same_busy = refl;
  }

  start_clipboard-SameJobs : (seconds : ℤ) (a : App) → SameJobs a (start_clipboard seconds a)
  unfolding start_clipboard
  start_clipboard-SameJobs (pos zero) a = record {
    same_calls = refl;
    same_derive = refl;
    same_pin_work = refl;
    same_busy = refl;
  }
  start_clipboard-SameJobs (pos (suc n)) a = record {
    same_calls = refl;
    same_derive = refl;
    same_pin_work = refl;
    same_busy = refl;
  }
  start_clipboard-SameJobs (negsuc n) a = record {
    same_calls = refl;
    same_derive = refl;
    same_pin_work = refl;
    same_busy = refl;
  }

  copy-SameJobs : (text : Bytes) (a : App) → SameJobs a (copy_to_clipboard text a)
  unfolding copy_to_clipboard note
  copy-SameJobs text a =
      let s =
        start_clipboard-SameJobs a.settings.clipboard_seconds
          (record a { clipboard = text; clipboard_expected = text }) in
      record {
        same_calls = s.same_calls;
        same_derive = s.same_derive;
        same_pin_work = s.same_pin_work;
        same_busy = s.same_busy;
      }

module _ (p : Primitives) (qt : Qt) where
  -- A reply, or a worker that is done: of a call that waits, or of none.
  answered-Waits :
      (w : World) (n : ℕ) (reply : Reply) (a : App) → Works a → Waits (answer_call p qt w n reply a)
  unfolding answer_call
  answered-Waits w n reply a h = elim (Option-cases (take_call n a.calls)) [
    | inl missing ↦ rw (answer_call, missing) (λ alive. h)
    | inr ((call, others), there) ↦ (answer_call-Nearer p qt w n reply a there (λ alive. h)).1
  ]

  pub react-Waits : (w : World) (event : Event) (a : App) → Works a → Waits (react p qt w event a)
  unfolding react note set_auto_lock_minutes configure_account cancel_login disable_pin forget_pin
      create_item save_item delete_item password_of notes_of totp_secret_of detail_fields_of
      totp_for auto_lock clear_clipboard_if_ours
  react-Waits w (Event.auto_lock_minutes_set minutes) a h = λ alive. h
  react-Waits w (Event.clipboard_seconds_set seconds) a h = λ alive. h
  react-Waits w (Event.lock_on_minimize_set on) a h = λ alive. h
  react-Waits w (Event.account_configured server_url email) a h = λ alive. h
  react-Waits w (Event.login_started password) a h = start_login-Waits qt password a h
  react-Waits w (Event.two_factor_submitted provider code remember) a h =
      submit_two_factor-Waits qt w provider code remember a h
  react-Waits w Event.email_code_requested a h = request_email_code-Waits qt w a h
  react-Waits w Event.login_canceled a h = λ alive. cc
  react-Waits w (Event.unlock_asked password) a h = unlock_app-Waits qt password a h
  react-Waits w (Event.pin_chosen password pin) a h = enable_pin-Waits qt password pin a h
  react-Waits w Event.pin_dropped a h = λ alive. h
  react-Waits w (Event.pin_entered pin) a h = unlock_with_pin-Waits qt w pin a h
  react-Waits w Event.lock_asked a h = same-Waits a _ h (lock_app-SameJobs qt a)
  react-Waits w Event.sync_asked a h = sync_now-Waits qt a h
  react-Waits w Event.signed_out a h = same-Waits a _ h (sign_out-SameJobs qt w a)
  react-Waits w (Event.item_created type fields ivs) a h =
      if_unlocked-Waits qt _ a
        (answered Waits (build_create_body p qt type fields ivs a.vault)
          (λ body built. begin_write-Waits qt _ _ a) (λ f failed alive. h))
        h
  react-Waits w (Event.item_saved item_id fields ivs) a h =
      if_unlocked-Waits qt _ a
        (answered Waits (build_update_body p qt item_id fields ivs a.vault)
          (λ body built. begin_write-Waits qt _ _ a) (λ f failed alive. h))
        h
  react-Waits w (Event.item_deleted item_id) a h =
      if_unlocked-Waits qt _ a (begin_write-Waits qt _ _ a) h
  react-Waits w (Event.password_read item_id) a h =
      same-Waits a _ h (told-SameJobs qt (item_password p qt (note a).vault item_id) a)
  react-Waits w (Event.notes_read item_id) a h = λ alive. h
  react-Waits w (Event.totp_secret_read item_id) a h =
      same-Waits a _ h (told-SameJobs qt (item_totp_secret p qt (note a).vault item_id) a)
  react-Waits w (Event.details_read item_id) a h = λ alive. h
  react-Waits w (Event.totp_read item_id) a h = λ alive. h
  react-Waits w (Event.search_typed text) a h = λ alive. h
  react-Waits w (Event.folder_chosen id) a h = λ alive. h
  react-Waits w (Event.text_copied text) a h = same-Waits a _ h (copy-SameJobs qt text a)
  react-Waits w (Event.clipboard_changed text) a h = λ alive. h
  react-Waits w Event.activity_noted a h = λ alive. h
  react-Waits w (Event.app_state_changed active) a h =
      same-Waits a _ h (handle_app_state_changed-SameJobs qt active a)
  react-Waits w Event.auto_lock_timed_out a h =
      same-Waits a _ h (with_vault-SameJobs qt (timeout a.vault) a)
  react-Waits w Event.clipboard_timed_out a h =
      either Waits a.clipboard_timer
        (λ runs.
          either Waits (bytes_equal a.clipboard a.clipboard_expected) (λ ours alive. h)
            (λ other alive. h))
        (λ stopped alive. h)
  react-Waits w (Event.replied n reply) a h = answered-Waits w n reply a h
  react-Waits w Event.derivation_finished a h = finish_derivation-Waits p qt w a h
  react-Waits w Event.pin_work_finished a h = finish_pin_work-Waits p qt w a h
