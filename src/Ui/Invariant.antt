-- ===== src/Ui/Invariant.antt =====
-- The invariant of the controller in every state that it reaches.
use harbour_leyni.Prelude.{
  ℕ, zero, suc, ◌<◌, refl, arith, ◌==◌, ltb, false, not, inl, inr, List, some, Result-cases, Bytes,
  is_empty, either, maybe, if◌then◌else◌, Result, err, ok,
}
use harbour_leyni.Crypto.Primitives.{Primitives}
use harbour_leyni.Crypto.PinWrap.{parse, unwrap_with_pin}
use harbour_leyni.Vault.Json.{ℤ, pos, negsuc}
use harbour_leyni.Vault.Qt.{Qt}
use harbour_leyni.Vault.Items.{Answer, answer, failure, answered}
use harbour_leyni.Vault.Stores.{load, exists}
use harbour_leyni.Vault.Session.{load_sync, verify_master_key}
use harbour_leyni.Vault.Session.Invariant.{IsVault}
use harbour_leyni.Vault.Session.Preserve.{load_sync-IsVault}
use harbour_leyni.Vault.Session.Timer.{Obeys, SameTimer-Obeys}
use harbour_leyni.Vault.Session.Signals.{load_sync-Emits}
use harbour_leyni.Api.Client.{Request, Reply}
use harbour_leyni.Ui.State.{
  App, World, DerivedSecrets, DeriveNext, then_login, then_unlock, then_enable_pin, DeriveRun,
  PinRun, wrap, unwrap, Call, prelogin_call, login_call, two_factor_call, email_code_call,
  login_sync_call, refresh_call, sync_call, write_call, refresh_write_call, retried_write_call,
  write_sync_call, to_seconds,
}
use harbour_leyni.Ui.Account.{device_info, first_page, forget_pin, start_clipboard}
use harbour_leyni.Ui.Session.{unlock_app}
use harbour_leyni.Ui.Login.{derived_to_login}
use harbour_leyni.Ui.Pin.{enable_pin, derived_to_enable_pin, unlock_with_pin}
use harbour_leyni.Ui.Items.{told}
use harbour_leyni.Ui.Controller.{
  take_call, resume, resume_next, resume_derived, resume_pin, answer_call, finish_derivation,
  finish_pin_work,
}
use harbour_leyni.Ui.Safety.{IsSound, kept, turned}
use harbour_leyni.Ui.SafeSteps.{
  away, derive_async-IsSound, run_pin_worker-IsSound, device_info-IsSound, pin_unwrapped-IsSound,
  login_synced-IsSound, write_synced-IsSound, derived_to_unlock-IsSound,
}
use harbour_leyni.Ui.SafeReplies.{
  refreshed-IsSound, refreshed_to_write-IsSound, finish_write-IsSound, pin_wrapped-IsSound,
  prelogin_done-IsSound, two_factor_answered-IsSound, email_code_answered-IsSound, synced-IsSound,
  written-IsSound, login_answered-IsSound,
}

pub first_page-IsSound :
    (qt : Qt) (a : App)
    → IsVault a.vault
    → a.settings.pin_failures < 3
    → Obeys (to_seconds a.settings.auto_lock_minutes) a.vault
    → IsSound (first_page qt a)
unfolding first_page
first_page-IsSound qt a sound few obeys =
    let (news, told, timer) = load_sync-Emits qt (load a.sync_file) a.vault in
    let loaded = SameTimer-Obeys _ a.vault _ obeys timer in
    either IsSound (is_empty a.settings.email)
      (λ none_set. record {
        is_vault = sound;
        page_open = λ shown. cc shown;
        few_failures = few;
        obeys = obeys;
      })
      (λ some_set.
        either IsSound (exists a.sync_file)
          (λ there.
            answered IsSound (load_sync qt (load a.sync_file) a.vault).1
              (λ n good. record {
                is_vault = load_sync-IsVault qt (load a.sync_file) a.vault sound;
                page_open = λ shown. cc shown;
                few_failures = few;
                obeys = loaded;
              })
              (λ f bad. record {
                is_vault = load_sync-IsVault qt (load a.sync_file) a.vault sound;
                page_open = λ shown. cc shown;
                few_failures = few;
                obeys = loaded;
              }))
          (λ missing. record {
            is_vault = sound;
            page_open = λ shown. cc shown;
            few_failures = few;
            obeys = obeys;
          }))

module _ (p : Primitives) (qt : Qt) where
  pub resume-IsSound :
      (w : World) (call : Call) (reply : Reply) (a : App)
      → IsSound a
      → IsSound (resume p qt w call reply a)
  unfolding resume
  resume-IsSound w (prelogin_call password) reply a h = prelogin_done-IsSound password _ a h
  resume-IsSound w login_call reply a h = login_answered-IsSound _ a h
  resume-IsSound w two_factor_call reply a h = two_factor_answered-IsSound _ a h
  resume-IsSound w email_code_call reply a h = email_code_answered-IsSound _ a h
  resume-IsSound w login_sync_call reply a h = login_synced-IsSound p qt w _ a h
  resume-IsSound w (refresh_call fresh) reply a h = refreshed-IsSound fresh _ a h
  resume-IsSound w (sync_call fresh) reply a h = synced-IsSound p qt w fresh _ a h
  resume-IsSound w (write_call write success) reply a h = written-IsSound qt write success _ a h
  resume-IsSound w (refresh_write_call write success) reply a h =
      refreshed_to_write-IsSound write success _ a h
  resume-IsSound w (retried_write_call write success) reply a h = finish_write-IsSound _ success a h
  resume-IsSound w (write_sync_call success) reply a h = write_synced-IsSound p qt w success _ a h

  pub resume_next-IsSound :
      (w : World) (to : DeriveNext) (secrets : Result DerivedSecrets) (a : App)
      → IsSound a
      → IsSound (resume_next p qt w to secrets a)
  unfolding resume_next derived_to_login derived_to_enable_pin
  resume_next-IsSound w then_login (err e) a h = kept a _ refl refl refl refl h
  resume_next-IsSound w then_login (ok secrets) a h =
      let begun : App = record a { pending_secrets = some secrets } in
      kept (device_info w begun).0 _ refl refl refl refl
        (device_info-IsSound w begun (kept a _ refl refl refl refl h))
  resume_next-IsSound w then_unlock secrets a h = derived_to_unlock-IsSound p qt secrets a h
  resume_next-IsSound w (then_enable_pin pin) (err e) a h = kept a _ refl refl refl refl h
  resume_next-IsSound w (then_enable_pin pin) (ok secrets) a h =
      answered IsSound (verify_master_key p secrets.master_key a.vault)
        (λ done good. run_pin_worker-IsSound (wrap secrets.master_key pin) a h)
        (λ f bad. kept a _ refl refl refl refl h)

  pub resume_pin-IsSound :
      (w : World) (run : PinRun) (a : App) → IsSound a → IsSound (resume_pin p qt w run a)
  unfolding resume_pin
  resume_pin-IsSound w (wrap secret pin) a h = pin_wrapped-IsSound w _ a h
  resume_pin-IsSound w (unwrap wrapped pin) a h =
      pin_unwrapped-IsSound p qt w (unwrap_with_pin p wrapped pin) a h

  pub answer_call-IsSound :
      (w : World) (n : ℕ) (reply : Reply) (a : App)
      → IsSound a
      → IsSound (answer_call p qt w n reply a)
  unfolding answer_call
  answer_call-IsSound w n reply a h =
      maybe IsSound (take_call n a.calls) (λ missing. h)
        (λ (c : Call × List (Call × Request)) there.
          resume-IsSound w c.0 reply _ (kept a _ refl refl refl refl h))

  pub workers-IsSound :
      (w : World) (a : App)
      → IsSound a
      → IsSound (finish_derivation p qt w a) × IsSound (finish_pin_work p qt w a)
  unfolding finish_derivation finish_pin_work resume_derived
  workers-IsSound w a h = (
    maybe IsSound a.derive (λ none_runs. h)
        (λ (run : DeriveRun) runs.
          resume_next-IsSound w run.next _ _ (kept a _ refl refl refl refl h)),
    maybe IsSound a.pin_work (λ none_runs. h)
        (λ (run : PinRun) runs. resume_pin-IsSound w run _ (kept a _ refl refl refl refl h)),
  )

  pub told-IsSound : (r : Answer Bytes) (a : App) → IsSound a → IsSound (told r a).0
  unfolding told
  told-IsSound (answer text) a h = h
  told-IsSound (failure f) a h = kept a _ refl refl refl refl h

  pub start_clipboard-IsSound :
      (seconds : ℤ) (a : App) → IsSound a → IsSound (start_clipboard seconds a)
  unfolding start_clipboard
  start_clipboard-IsSound (pos zero) a h = kept a _ refl refl refl refl h
  start_clipboard-IsSound (pos (suc n)) a h = kept a _ refl refl refl refl h
  start_clipboard-IsSound (negsuc n) a h = kept a _ refl refl refl refl h

  pub unlock_app-IsSound :
      (password : Bytes) (a : App) → IsSound a → IsSound (unlock_app password a)
  unfolding unlock_app
  unlock_app-IsSound password a h =
      either IsSound (if a.vault.locked then not (exists a.sync_file) else false)
        (λ none_there. kept a _ refl refl refl refl h)
        (λ there.
          either IsSound (a.settings.kdf.iterations == 0)
            (λ none_stored. away a _ refl refl (λ shown. cc shown) refl h)
            (λ stored.
              derive_async-IsSound password _ then_unlock _ (kept a _ refl refl refl refl h)))

  pub enable_pin-IsSound :
      (password pin : Bytes) (a : App) → IsSound a → IsSound (enable_pin qt password pin a)
  unfolding enable_pin
  enable_pin-IsSound password pin a h =
      either IsSound (ltb (qt.size pin) 4) (λ short. kept a _ refl refl refl refl h)
        (λ long.
          either IsSound (not (exists a.sync_file)) (λ none_there. kept a _ refl refl refl refl h)
            (λ there.
              either IsSound (a.settings.kdf.iterations == 0)
                (λ none_stored. kept a _ refl refl refl refl h)
                (λ stored.
                  derive_async-IsSound password _ (then_enable_pin pin) _
                    (kept a _ refl refl refl refl h))))

  pub unlock_with_pin-IsSound :
      (w : World) (pin : Bytes) (a : App) → IsSound a → IsSound (unlock_with_pin w pin a)
  unfolding unlock_with_pin forget_pin
  unlock_with_pin-IsSound w pin a h =
      either IsSound (not (exists a.pin_file)) (λ none_set. kept a _ refl refl refl refl h)
        (λ some_set.
          either IsSound (not (exists a.sync_file)) (λ none_there. kept a _ refl refl refl refl h)
            (λ there. elim (Result-cases (parse (load a.pin_file))) [
              | inr (e, bad) ↦ rw bad (turned a _ refl refl h.page_open (omega arith) h)
              | inl (wrapped, good) ↦
                  rw good
                    (run_pin_worker-IsSound (unwrap wrapped pin) _ (kept a _ refl refl refl refl h))
            ]))
