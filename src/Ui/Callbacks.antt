-- ===== src/Ui/Callbacks.antt =====
-- Each callback of the controller ends the wait, or waits for less.
use harbour_leyni.Prelude.{
  ℕ, ◌+◌, ◌≤◌, ◌≡◌, refl, ◌∙◌, arith, Bool, true, false, not, none, some, Option-cases, inl, inr,
  Bytes, String, is_empty, either, maybe, leb, Result, err, ok,
}
use harbour_leyni.Crypto.Primitives.{Primitives}
use harbour_leyni.Crypto.Kdf.Params.{KdfParams}
use harbour_leyni.Vault.Qt.{Qt}
use harbour_leyni.Vault.Items.{answered, Answer-cases}
use harbour_leyni.Vault.State.{Vault}
use harbour_leyni.Vault.Session.{load_sync, unlock_with_master_key, reload_sync}
use harbour_leyni.Vault.Stores.{save}
use harbour_leyni.Api.Types.{DeviceInfo, ApiError, TokenResponse, Outcome, is_ok}
use harbour_leyni.Ui.State.{
  App, World, DerivedSecrets, then_login, login_call, login_sync_call, refresh_model, with_vault,
  set_busy,
}
use harbour_leyni.Ui.Account.{device_info, forget_pin}
use harbour_leyni.Ui.Session.{
  store_blob, reload_blob, enter_with, enter, load_blob, apply_sync_blob, synced, unlock_with,
  derived_to_unlock,
}
use harbour_leyni.Ui.Login.{
  prelogin_done, derived_to_login, finish_login, ask_two_factor, login_answered,
  two_factor_answered, login_synced,
}
use harbour_leyni.Ui.Pin.{set_pin_failures, count_wrong_pin, unlock_with_pin_key, pin_unwrapped}
use harbour_leyni.Ui.Writes.{apply_write_sync, write_synced}
use harbour_leyni.Ui.Jobs.{
  work, SameJobs, with_vault-SameJobs, SameJobs-work, Leads, ends, sends, from, awaits,
  derive_async-Leads,
}

-- A callback that leaves the jobs as they are and ends the wait.
quiet : (most : ℕ) (a b : App) → 1 ≤ most → SameJobs a b → Leads most a (set_busy false b)
quiet most a b some_most h =
    ends most a (set_busy false b) some_most (SameJobs-work a b h) h.same_calls refl

pub quiet_from : (a b : App) → SameJobs (set_busy false a) b → Leads 1 a b
quiet_from a b h =
    ends 1 a b (omega arith) (SameJobs-work (set_busy false a) b h) h.same_calls h.same_busy

-- A callback that does nothing but end the wait.
abbrev pub only_ends :
    {b : App} (most : ℕ) (a : App)
    → 1 ≤ most
    → work b ≡ work a
    → b.calls ≡ a.calls
    → b.busy ≡ false
    → Leads most a b
only_ends {b} most a h = ends most a b h

pub prelogin_done-Leads :
    (password : Bytes) (result : Outcome KdfParams) (a : App)
    → Leads 4 a (prelogin_done password result a)
unfolding prelogin_done
prelogin_done-Leads password result a =
    either (Leads 4 a) (not (is_ok result)) (λ bad. only_ends 4 a (omega arith) refl refl refl)
      (λ good.
        let stored : App = record a { settings = record a.settings { kdf = result.value } } in
        from 4 a stored _
          (record { same_calls = refl; same_derive = refl; same_pin_work = refl; same_busy = refl })
          (derive_async-Leads 4 password result.value then_login stored (omega arith)))

pub device_info-SameJobs : (w : World) (a : App) → SameJobs a (device_info w a).0
unfolding device_info
device_info-SameJobs w a =
    either (λ (r : App × DeviceInfo). SameJobs a r.0) (is_empty a.settings.device_id)
      (λ new. record {
        same_calls = refl;
        same_derive = refl;
        same_pin_work = refl;
        same_busy = refl;
      })
      (λ old. record {
        same_calls = refl;
        same_derive = refl;
        same_pin_work = refl;
        same_busy = refl;
      })

pub derived_to_login-Leads :
    (qt : Qt) (w : World) (secrets : Result DerivedSecrets) (a : App)
    → Leads 3 a (derived_to_login qt w secrets a)
unfolding derived_to_login
derived_to_login-Leads qt w (err e) a = only_ends 3 a (omega arith) refl refl refl
derived_to_login-Leads qt w (ok secrets) a =
    let begun : App = record a { pending_secrets = some secrets } in
    let h = device_info-SameJobs w begun in
    awaits 3 a (device_info w begun).0 login_call _
      (record {
        same_calls = h.same_calls;
        same_derive = h.same_derive;
        same_pin_work = h.same_pin_work;
        same_busy = h.same_busy;
      })
      (omega arith) (omega arith)

pub finish_login-Leads : (token : TokenResponse) (a : App) → Leads 2 a (finish_login token a)
unfolding finish_login
finish_login-Leads token a =
    sends 2 a _ login_sync_call _ (omega arith) (omega arith) refl refl refl

pub ask_two_factor-Leads : (e : ApiError) (a : App) → Leads 2 a (ask_two_factor e a)
unfolding ask_two_factor
ask_two_factor-Leads e a = elim (Option-cases a.pending_secrets) [
  | inl none_pending ↦
      rw (ask_two_factor, none_pending)
        (record { less = omega arith; calls_left = omega arith; waits = λ alive. cc alive })
  | inr (secrets, pending) ↦
      rw (ask_two_factor, pending)
        (record { less = omega arith; calls_left = omega arith; waits = λ alive busy. cc busy })
]

pub login_answered-Leads :
    (result : Outcome TokenResponse) (a : App) → Leads 2 a (login_answered result a)
unfolding login_answered
login_answered-Leads result a =
    either (Leads 2 a) (is_ok result) (λ good. finish_login-Leads result.value a)
      (λ bad.
        either (Leads 2 a) result.error.two_factor_required
          (λ asked. ask_two_factor-Leads result.error a)
          (λ failed. only_ends 2 a (omega arith) refl refl refl))

pub two_factor_answered-Leads :
    (result : Outcome TokenResponse) (a : App) → Leads 2 a (two_factor_answered result a)
unfolding two_factor_answered
two_factor_answered-Leads result a =
    either (Leads 2 a) (is_ok result) (λ good. finish_login-Leads result.value a)
      (λ failed. only_ends 2 a (omega arith) refl refl refl)

module _ (p : Primitives) (qt : Qt) where
  -- The slots of the vault's signals, after which other members are set.
  after_vault :
      (v : Vault) (a b c : App)
      → SameJobs a b
      → c.calls ≡ (with_vault qt v b).calls
      → c.derive ≡ (with_vault qt v b).derive
      → c.pin_work ≡ (with_vault qt v b).pin_work
      → c.busy ≡ (with_vault qt v b).busy
      → SameJobs a c
  after_vault v a b c h calls derive pin_work busy =
      let heard = with_vault-SameJobs qt v b in
      record {
        same_calls = calls ∙ heard.same_calls ∙ h.same_calls;
        same_derive = derive ∙ heard.same_derive ∙ h.same_derive;
        same_pin_work = pin_work ∙ heard.same_pin_work ∙ h.same_pin_work;
        same_busy = busy ∙ heard.same_busy ∙ h.same_busy;
      }

  keeps : (a : App) → SameJobs a a
  keeps a = record { same_calls = refl; same_derive = refl; same_pin_work = refl; same_busy = refl }

  -- The wait is over, and the vault has changed.
  idle_after :
      (v : Vault) (a c : App)
      → c.calls ≡ (with_vault qt v (set_busy false a)).calls
      → c.derive ≡ (with_vault qt v (set_busy false a)).derive
      → c.pin_work ≡ (with_vault qt v (set_busy false a)).pin_work
      → c.busy ≡ (with_vault qt v (set_busy false a)).busy
      → Leads 1 a c
  idle_after v a c calls derive pin_work busy = quiet_from a c (
      after_vault v (set_busy false a) (set_busy false a) c (keeps (set_busy false a)) calls derive
        pin_work busy)

  store_blob-SameJobs : (w : World) (blob : Bytes) (a : App) → SameJobs a (store_blob w blob a)
  unfolding store_blob
  store_blob-SameJobs w blob a =
      either (SameJobs a) (save w.sync_writing blob a.sync_file).1
        (λ saved. record {
          same_calls = refl;
          same_derive = refl;
          same_pin_work = refl;
          same_busy = refl;
        })
        (λ lost. record {
          same_calls = refl;
          same_derive = refl;
          same_pin_work = refl;
          same_busy = refl;
        })

  reload_blob-SameJobs :
      (blob : Bytes) (a b : App) → SameJobs a b → SameJobs a (reload_blob p qt blob b)
  unfolding reload_blob refresh_model
  reload_blob-SameJobs blob a b h = elim (Answer-cases (reload_sync p qt blob b.vault).1) [
    | inl (n, e) ↦ rw (reload_blob, e) (after_vault _ a b _ h refl refl refl refl)
    | inr (f, e) ↦ rw (reload_blob, e) (after_vault _ a b _ h refl refl refl refl)
  ]

  enter_with-SameJobs :
      (key : Bytes) (a b : App) → SameJobs a b → SameJobs a (enter_with p qt key b)
  unfolding enter_with refresh_model
  enter_with-SameJobs key a b h = elim (Answer-cases (unlock_with_master_key p qt key b.vault).1) [
    | inl (n, e) ↦ rw (enter_with, e) (after_vault _ a b _ h refl refl refl refl)
    | inr (f, e) ↦ rw (enter_with, e) (after_vault _ a b _ h refl refl refl refl)
  ]

  enter-SameJobs : (fresh : Bool) (a b : App) → SameJobs a b → SameJobs a (enter p qt fresh b)
  unfolding enter
  enter-SameJobs false a b h = record {
    same_calls = h.same_calls;
    same_derive = h.same_derive;
    same_pin_work = h.same_pin_work;
    same_busy = h.same_busy;
  }
  enter-SameJobs true a b h =
      maybe (SameJobs a) b.pending_secrets
        (λ none_pending. record {
          same_calls = h.same_calls;
          same_derive = h.same_derive;
          same_pin_work = h.same_pin_work;
          same_busy = h.same_busy;
        })
        (λ secrets pending.
          enter_with-SameJobs secrets.master_key a (record b { pending_secrets = none })
            (record {
              same_calls = h.same_calls;
              same_derive = h.same_derive;
              same_pin_work = h.same_pin_work;
              same_busy = h.same_busy;
            }))

  load_blob-SameJobs :
      (fresh : Bool) (blob : Bytes) (a b : App)
      → SameJobs a b
      → SameJobs a (load_blob p qt fresh blob b)
  unfolding load_blob
  load_blob-SameJobs fresh blob a b h =
      answered (SameJobs a) (load_sync qt blob b.vault).1
        (λ skipped good. enter-SameJobs fresh a _ (after_vault _ a b _ h refl refl refl refl))
        (λ f bad. after_vault _ a b _ h refl refl refl refl)

  pub apply_sync_blob-Leads :
      (w : World) (blob : Bytes) (fresh : Bool) (a : App)
      → Leads 1 a (apply_sync_blob p qt w blob fresh a)
  unfolding apply_sync_blob
  apply_sync_blob-Leads w blob fresh a =
      let stored = store_blob-SameJobs w blob a in
      either (λ (b : App). Leads 1 a (set_busy false b)) (not (store_blob w blob a).vault.locked)
        (λ unlocked. quiet 1 a _ (omega arith) (reload_blob-SameJobs blob a _ stored))
        (λ locked. quiet 1 a _ (omega arith) (load_blob-SameJobs fresh blob a _ stored))

  pub login_synced-Leads :
      (w : World) (result : Outcome Bytes) (a : App) → Leads 1 a (login_synced p qt w result a)
  unfolding login_synced
  login_synced-Leads w result a =
      either (Leads 1 a) (not (is_ok result)) (λ bad. only_ends 1 a (omega arith) refl refl refl)
        (λ good. apply_sync_blob-Leads w result.value true a)

  pub synced-Leads :
      (w : World) (fresh : Bool) (result : Outcome Bytes) (a : App)
      → Leads 1 a (synced p qt w fresh result a)
  unfolding synced
  synced-Leads w fresh result a =
      either (Leads 1 a) (not (is_ok result)) (λ bad. only_ends 1 a (omega arith) refl refl refl)
        (λ good. apply_sync_blob-Leads w result.value fresh a)

  pub unlock_with-Leads :
      (key : Bytes) (a : App) → Leads 1 a (unlock_with p qt key (set_busy false a))
  unfolding unlock_with refresh_model
  unlock_with-Leads key a =
      answered (Leads 1 a) (unlock_with_master_key p qt key a.vault).1
        (λ done good. idle_after _ a _ refl refl refl refl)
        (λ f bad. idle_after _ a _ refl refl refl refl)

  pub derived_to_unlock-Leads :
      (secrets : Result DerivedSecrets) (a : App) → Leads 1 a (derived_to_unlock p qt secrets a)
  unfolding derived_to_unlock
  derived_to_unlock-Leads (err e) a = only_ends 1 a (omega arith) refl refl refl
  derived_to_unlock-Leads (ok secrets) a = unlock_with-Leads secrets.master_key a

  pub unlock_with_pin_key-Leads :
      (w : World) (key : Bytes) (a : App)
      → Leads 1 a (unlock_with_pin_key p qt w key (set_busy false a))
  unfolding unlock_with_pin_key refresh_model set_pin_failures forget_pin
  unlock_with_pin_key-Leads w key a =
      answered (Leads 1 a) (unlock_with_master_key p qt key a.vault).1
        (λ done good. idle_after _ a _ refl refl refl refl)
        (λ f bad. idle_after _ a _ refl refl refl refl)

  pub pin_unwrapped-Leads :
      (w : World) (key : Result Bytes) (a : App) → Leads 1 a (pin_unwrapped p qt w key a)
  unfolding pin_unwrapped count_wrong_pin set_pin_failures forget_pin
  pin_unwrapped-Leads w (err e) a =
      either (Leads 1 a) (leb 3 (a.settings.pin_failures + 1))
        (λ wiped. only_ends 1 a (omega arith) refl refl refl)
        (λ counted. only_ends 1 a (omega arith) refl refl refl)
  pin_unwrapped-Leads w (ok key) a = unlock_with_pin_key-Leads w key a

  pub write_synced-Leads :
      (w : World) (success : String) (result : Outcome Bytes) (a : App)
      → Leads 1 a (write_synced p qt w success result a)
  unfolding write_synced apply_write_sync refresh_model
  write_synced-Leads w success result a =
      let idle : App = set_busy false a in
      let stored = store_blob-SameJobs w result.value idle in
      either (Leads 1 a) (not (is_ok result)) (λ bad. only_ends 1 a (omega arith) refl refl refl)
        (λ good.
          answered (Leads 1 a)
            (reload_sync p qt result.value (store_blob w result.value idle).vault).1
            (λ skipped taken. quiet_from a _ (after_vault _ idle _ _ stored refl refl refl refl))
            (λ f refused. quiet_from a _ (after_vault _ idle _ _ stored refl refl refl refl)))
