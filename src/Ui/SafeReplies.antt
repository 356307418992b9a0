-- ===== src/Ui/SafeReplies.antt =====
-- What follows a reply keeps the invariant of the controller.
use harbour_leyni.Prelude.{
  ◌≡◌, refl, arith, Bool, false, not, Bytes, String, is_empty, either, maybe, Result, err, ok,
}
use harbour_leyni.Crypto.Primitives.{Primitives}
use harbour_leyni.Crypto.Kdf.Params.{KdfParams}
use harbour_leyni.Vault.Qt.{Qt}
use harbour_leyni.Vault.Stores.{save}
use harbour_leyni.Api.Types.{Outcome, is_ok, TokenResponse}
use harbour_leyni.Ui.State.{Page, unlocked, App, World, then_login, Write, note}
use harbour_leyni.Ui.Session.{take_tokens, end_session, refreshed, synced}
use harbour_leyni.Ui.Login.{
  prelogin_done, finish_login, ask_two_factor, login_answered, two_factor_answered,
  email_code_answered,
}
use harbour_leyni.Ui.Pin.{set_pin_failures, store_pin, pin_wrapped}
use harbour_leyni.Ui.Writes.{
  refresh_then_write, write_and_resync, finish_write, is_expired, written, refreshed_to_write,
  begin_write, is_unlocked, if_unlocked,
}
use harbour_leyni.Ui.Safety.{IsSound, kept, turned}
use harbour_leyni.Ui.SafeSteps.{away, derive_async-IsSound, note-IsSound, apply_sync_blob-IsSound}

pub take_tokens-IsSound :
    (tokens : TokenResponse) (a : App) → IsSound a → IsSound (take_tokens tokens a)
unfolding take_tokens
take_tokens-IsSound tokens a h =
    either IsSound (not (is_empty tokens.refresh_token)) (λ new. kept a _ refl refl refl refl h)
      (λ old. kept a _ refl refl refl refl h)

pub end_session-IsSound : (a : App) → IsSound a → IsSound (end_session a)
unfolding end_session
end_session-IsSound a h =
    turned a _ refl refl
      (either (λ (g : Page). g ≡ unlocked → a.vault.locked ≡ false) a.vault.locked
        (λ closed shown. cc shown) (λ opened shown. opened))
      h.few_failures h

pub refreshed-IsSound :
    (fresh : Bool) (r : Outcome TokenResponse) (a : App) → IsSound a → IsSound (refreshed fresh r a)
unfolding refreshed
refreshed-IsSound fresh r a h =
    either IsSound (not (is_ok r)) (λ bad. end_session-IsSound a h)
      (λ good. kept (take_tokens r.value a) _ refl refl refl refl (take_tokens-IsSound r.value a h))

pub refreshed_to_write-IsSound :
    (write : Write) (success : String) (r : Outcome TokenResponse) (a : App)
    → IsSound a
    → IsSound (refreshed_to_write write success r a)
unfolding refreshed_to_write
refreshed_to_write-IsSound write success r a h =
    either IsSound (not (is_ok r)) (λ bad. kept a _ refl refl refl refl h)
      (λ good. kept (take_tokens r.value a) _ refl refl refl refl (take_tokens-IsSound r.value a h))

pub refresh_then_write-IsSound :
    (qt : Qt) (write : Write) (success : String) (a : App)
    → IsSound a
    → IsSound (refresh_then_write qt write success a)
unfolding refresh_then_write
refresh_then_write-IsSound qt write success a h =
    either IsSound (is_empty a.refresh_token) (λ none_left. kept a _ refl refl refl refl h)
      (λ some_left. kept a _ refl refl refl refl h)

pub finish_write-IsSound :
    (r : Outcome Bytes) (success : String) (a : App)
    → IsSound a
    → IsSound (finish_write r success a)
unfolding finish_write
finish_write-IsSound r success a h =
    either IsSound (not (is_ok r)) (λ bad. kept a _ refl refl refl refl h)
      (λ good. kept a _ refl refl refl refl h)

pub finish_login-IsSound :
    (tokens : TokenResponse) (a : App) → IsSound a → IsSound (finish_login tokens a)
unfolding finish_login
finish_login-IsSound tokens a h = kept a _ refl refl refl refl h

pub login_answered-IsSound :
    (r : Outcome TokenResponse) (a : App) → IsSound a → IsSound (login_answered r a)
unfolding login_answered ask_two_factor
login_answered-IsSound r a h =
    either IsSound (is_ok r) (λ good. finish_login-IsSound r.value a h)
      (λ bad.
        either IsSound r.error.two_factor_required
          (λ asked.
            maybe IsSound a.pending_secrets (λ none_pending. kept a _ refl refl refl refl h)
              (λ secrets pending. away a _ refl refl (λ shown. cc shown) refl h))
          (λ failed. kept a _ refl refl refl refl h))

pub begin_write-IsSound :
    (qt : Qt) (write : Write) (success : String) (a : App)
    → IsSound a
    → IsSound (begin_write qt write success a)
unfolding begin_write write_and_resync note
begin_write-IsSound qt write success a h =
    let noted = note-IsSound a h in
    either IsSound (is_empty a.access_token)
      (λ none_left.
        refresh_then_write-IsSound qt write success _ (kept (note a) _ refl refl refl refl noted))
      (λ some_left. kept (note a) _ refl refl refl refl noted)

pub if_unlocked-IsSound :
    (begin : App → App) (a : App) → IsSound (begin a) → IsSound a → IsSound (if_unlocked begin a)
unfolding if_unlocked
if_unlocked-IsSound begin a begun h =
    either IsSound (not (is_unlocked a.page)) (λ closed. kept a _ refl refl refl refl h)
      (λ opened. begun)

pub pin_wrapped-IsSound :
    (w : World) (blob : Result Bytes) (a : App) → IsSound a → IsSound (pin_wrapped w blob a)
unfolding pin_wrapped store_pin set_pin_failures
pin_wrapped-IsSound w (err e) a h = kept a _ refl refl refl refl h
pin_wrapped-IsSound w (ok blob) a h =
    either IsSound (not (save w.pin_writing blob a.pin_file).1)
      (λ lost. kept a _ refl refl refl refl h)
      (λ saved. turned a _ refl refl h.page_open (omega arith) h)

pub prelogin_done-IsSound :
    (password : Bytes) (r : Outcome KdfParams) (a : App)
    → IsSound a
    → IsSound (prelogin_done password r a)
unfolding prelogin_done
prelogin_done-IsSound password r a h =
    let stored : App = record a { settings = record a.settings { kdf = r.value } } in
    either IsSound (not (is_ok r)) (λ bad. kept a _ refl refl refl refl h)
      (λ good.
        derive_async-IsSound password r.value then_login stored (kept a _ refl refl refl refl h))

pub two_factor_answered-IsSound :
    (r : Outcome TokenResponse) (a : App) → IsSound a → IsSound (two_factor_answered r a)
unfolding two_factor_answered
two_factor_answered-IsSound r a h =
    either IsSound (is_ok r) (λ good. finish_login-IsSound r.value a h)
      (λ bad. kept a _ refl refl refl refl h)

pub email_code_answered-IsSound :
    (r : Outcome Bytes) (a : App) → IsSound a → IsSound (email_code_answered r a)
unfolding email_code_answered
email_code_answered-IsSound r a h =
    either IsSound (is_ok r) (λ good. kept a _ refl refl refl refl h)
      (λ bad. kept a _ refl refl refl refl h)

pub synced-IsSound :
    (p : Primitives) (qt : Qt) (w : World) (fresh : Bool) (r : Outcome Bytes) (a : App)
    → IsSound a
    → IsSound (synced p qt w fresh r a)
unfolding synced
synced-IsSound p qt w fresh r a h =
    either IsSound (not (is_ok r)) (λ bad. kept a _ refl refl refl refl h)
      (λ good. apply_sync_blob-IsSound p qt w r.value fresh a h)

pub written-IsSound :
    (qt : Qt) (write : Write) (success : String) (r : Outcome Bytes) (a : App)
    → IsSound a
    → IsSound (written qt write success r a)
unfolding written
written-IsSound qt write success r a h =
    either IsSound (is_expired r) (λ expired. refresh_then_write-IsSound qt write success a h)
      (λ other. finish_write-IsSound r success a h)
