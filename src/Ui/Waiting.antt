-- ===== src/Ui/Waiting.antt =====
-- Who is busy waits for something, and a wait ends: the liveness of the controller.
use harbour_leyni.Prelude.{
  ℕ, ◌+◌, ◌*◌, ◌≤◌, ◌<◌, ◌≡◌, refl, ap, sym, ◌∙◌, arith, Bool, true, not, List, none, some, Bytes,
  String, length, is_empty, either, maybe, Result, err, ok,
}
use harbour_leyni.Crypto.Primitives.{Primitives}
use harbour_leyni.Crypto.PinWrap.{unwrap_with_pin}
use harbour_leyni.Vault.Qt.{Qt}
use harbour_leyni.Vault.Items.{answered}
use harbour_leyni.Vault.Session.{verify_master_key}
use harbour_leyni.Vault.Stores.{save}
use harbour_leyni.Api.Types.{TokenResponse, Outcome, is_ok}
use harbour_leyni.Api.Client.{Request, Reply, finished_send_email_login}
use harbour_leyni.Ui.State.{
  App, World, DerivedSecrets, DeriveNext, then_login, then_unlock, then_enable_pin, DeriveRun,
  PinRun, wrap, unwrap, Write, Call, prelogin_call, login_call, two_factor_call, email_code_call,
  login_sync_call, refresh_call, sync_call, write_call, refresh_write_call, retried_write_call,
  write_sync_call,
}
use harbour_leyni.Ui.Session.{take_tokens, refreshed, end_session, derived_secrets}
use harbour_leyni.Ui.Login.{email_code_answered}
use harbour_leyni.Ui.Pin.{set_pin_failures, derived_to_enable_pin, store_pin, pin_wrapped}
use harbour_leyni.Ui.Writes.{
  refresh_then_write, finish_write, is_expired, written, refreshed_to_write,
}
use harbour_leyni.Ui.Controller.{
  take_call, resume, resume_next, resume_derived, resume_pin, answer_call, finish_derivation,
  finish_pin_work,
}
use harbour_leyni.Ui.Jobs.{
  call_work, calls_work, derive_work, pin_run_work, next_work, work, SameJobs-work, Waits, SameJobs,
  Leads, sends, awaits, run_pin_worker-Leads, take_call-work,
}
use harbour_leyni.Ui.Callbacks.{
  only_ends, prelogin_done-Leads, derived_to_login-Leads, login_answered-Leads,
  two_factor_answered-Leads, login_synced-Leads, synced-Leads, derived_to_unlock-Leads,
  pin_unwrapped-Leads, write_synced-Leads,
}

take_tokens-SameJobs : (tokens : TokenResponse) (a : App) → SameJobs a (take_tokens tokens a)
unfolding take_tokens
take_tokens-SameJobs tokens a =
    either (SameJobs a) (not (is_empty tokens.refresh_token))
      (λ new. record {
        same_calls = refl;
        same_derive = refl;
        same_pin_work = refl;
        same_busy = refl;
      })
      (λ old. record {
        same_calls = refl;
        same_derive = refl;
        same_pin_work = refl;
        same_busy = refl;
      })

refreshed-Leads :
    (fresh : Bool) (result : Outcome TokenResponse) (a : App) → Leads 2 a (refreshed fresh result a)
unfolding refreshed end_session
refreshed-Leads fresh result a =
    either (Leads 2 a) (not (is_ok result)) (λ bad. only_ends 2 a (omega arith) refl refl refl)
      (λ good.
        awaits 2 a (take_tokens result.value a) (sync_call fresh) _
          (take_tokens-SameJobs result.value a) (omega arith) (omega arith))

refreshed_to_write-Leads :
    (write : Write) (success : String) (result : Outcome TokenResponse) (a : App)
    → Leads 3 a (refreshed_to_write write success result a)
unfolding refreshed_to_write
refreshed_to_write-Leads write success result a =
    either (Leads 3 a) (not (is_ok result)) (λ bad. only_ends 3 a (omega arith) refl refl refl)
      (λ good.
        awaits 3 a (take_tokens result.value a) (retried_write_call write success) _
          (take_tokens-SameJobs result.value a) (omega arith) (omega arith))

finish_write-Leads :
    (most : ℕ) (result : Outcome Bytes) (success : String) (a : App)
    → 1 < most
    → Leads most a (finish_write result success a)
unfolding finish_write
finish_write-Leads most result success a h =
    either (Leads most a) (not (is_ok result))
      (λ bad. only_ends most a (omega (arith, h)) refl refl refl)
      (λ good. sends most a _ (write_sync_call success) _ (omega arith) h refl refl refl)

written-Leads :
    (qt : Qt) (write : Write) (success : String) (result : Outcome Bytes) (a : App)
    → Leads 4 a (written qt write success result a)
unfolding written refresh_then_write
written-Leads qt write success result a =
    either (Leads 4 a) (is_expired result)
      (λ expired.
        either (Leads 4 a) (is_empty a.refresh_token)
          (λ none_left. only_ends 4 a (omega arith) refl refl refl)
          (λ some_left.
            sends 4 a _ (refresh_write_call write success) _ (omega arith) (omega arith) refl refl
              refl))
      (λ good. finish_write-Leads 4 result success a (omega arith))

derived_to_enable_pin-Leads :
    (p : Primitives) (pin : Bytes) (secrets : Result DerivedSecrets) (a : App)
    → Leads 2 a (derived_to_enable_pin p pin secrets a)
unfolding derived_to_enable_pin
derived_to_enable_pin-Leads p pin (err e) a = only_ends 2 a (omega arith) refl refl refl
derived_to_enable_pin-Leads p pin (ok secrets) a =
    answered (Leads 2 a) (verify_master_key p secrets.master_key a.vault)
      (λ done good. run_pin_worker-Leads 2 (wrap secrets.master_key pin) a (omega arith))
      (λ f bad. only_ends 2 a (omega arith) refl refl refl)

pin_wrapped-Leads : (w : World) (blob : Result Bytes) (a : App) → Leads 1 a (pin_wrapped w blob a)
unfolding pin_wrapped store_pin set_pin_failures
pin_wrapped-Leads w (err e) a = only_ends 1 a (omega arith) refl refl refl
pin_wrapped-Leads w (ok blob) a =
    either (Leads 1 a) (not (save w.pin_writing blob a.pin_file).1)
      (λ lost. only_ends 1 a (omega arith) refl refl refl)
      (λ saved. only_ends 1 a (omega arith) refl refl refl)

email_code_answered-SameJobs :
    (result : Outcome Bytes) (a : App)
    → SameJobs a (email_code_answered result a)
      × ((email_code_answered result a).crashed ≡ a.crashed)
unfolding email_code_answered
email_code_answered-SameJobs result a =
    either (λ (b : App). SameJobs a b × (b.crashed ≡ a.crashed)) (is_ok result)
      (λ sent. (
        record { same_calls = refl; same_derive = refl; same_pin_work = refl; same_busy = refl },
        refl,
      ))
      (λ failed. (
        record { same_calls = refl; same_derive = refl; same_pin_work = refl; same_busy = refl },
        refl,
      ))

-- A number that no wait can be longer than.
abbrev pub rank : App → ℕ
rank a = 2 * work a + length a.calls

module _ (p : Primitives) (qt : Qt) where
  resume_next-Leads :
      (w : World) (next : DeriveNext) (secrets : Result DerivedSecrets) (a : App)
      → Leads (next_work next) a (resume_next p qt w next secrets a)
  unfolding resume_next
  resume_next-Leads w then_login secrets a = derived_to_login-Leads qt w secrets a
  resume_next-Leads w then_unlock secrets a = derived_to_unlock-Leads p qt secrets a
  resume_next-Leads w (then_enable_pin pin) secrets a = derived_to_enable_pin-Leads p pin secrets a

  resume_pin-Leads : (w : World) (run : PinRun) (a : App) → Leads 1 a (resume_pin p qt w run a)
  unfolding resume_pin
  resume_pin-Leads w (wrap secret pin) a = pin_wrapped-Leads w _ a
  resume_pin-Leads w (unwrap wrapped pin) a =
      pin_unwrapped-Leads p qt w (unwrap_with_pin p wrapped pin) a

  -- The program is nearer to the end of its wait, and still waits for something if it is busy.
  abbrev pub Nearer : App → App → Type 0
  Nearer a b = (rank b < rank a) × Waits b

  counted :
      (most : ℕ) (a b : App) (others : List (Call × Request))
      → calls_work a.calls ≡ most + calls_work others
      → length a.calls ≡ length others + 1
      → Leads most (record a { calls = others }) b
      → Nearer a b
  counted most a b others total many l = (omega (arith, total, many, l.less, l.calls_left), l.waits)

  -- The callback of each call
  resume-Nearer :
      (w : World) (call : Call) (reply : Reply) (a : App) (others : List (Call × Request))
      → calls_work a.calls ≡ call_work call + calls_work others
      → length a.calls ≡ length others + 1
      → Waits a
      → Nearer a (resume p qt w call reply (record a { calls = others }))
  unfolding resume
  resume-Nearer w (prelogin_call password) reply a others total many h =
      counted 4 a _ others total many (prelogin_done-Leads password _ _)
  resume-Nearer w login_call reply a others total many h =
      counted 2 a _ others total many (login_answered-Leads _ _)
  resume-Nearer w two_factor_call reply a others total many h =
      counted 2 a _ others total many (two_factor_answered-Leads _ _)
  resume-Nearer w email_code_call reply a others total many h =
      let left : App = record a { calls = others } in
      let (s, same_crash) = email_code_answered-SameJobs (finished_send_email_login reply) left in
      let same = SameJobs-work left _ s in
      (
        omega (arith, total, many, same, ap (λ (c : List (Call × Request)). length c) s.same_calls),
        λ alive busy.
            omega (arith, total, same, h (sym same_crash ∙ alive) (sym s.same_busy ∙ busy)),
      )
  resume-Nearer w login_sync_call reply a others total many h =
      counted 1 a _ others total many (login_synced-Leads p qt w _ _)
  resume-Nearer w (refresh_call fresh) reply a others total many h =
      counted 2 a _ others total many (refreshed-Leads fresh _ _)
  resume-Nearer w (sync_call fresh) reply a others total many h =
      counted 1 a _ others total many (synced-Leads p qt w fresh _ _)
  resume-Nearer w (write_call write success) reply a others total many h =
      counted 4 a _ others total many (written-Leads qt write success _ _)
  resume-Nearer w (refresh_write_call write success) reply a others total many h =
      counted 3 a _ others total many (refreshed_to_write-Leads write success _ _)
  resume-Nearer w (retried_write_call write success) reply a others total many h =
      counted 2 a _ others total many (finish_write-Leads 2 _ success _ (omega arith))
  resume-Nearer w (write_sync_call success) reply a others total many h =
      counted 1 a _ others total many (write_synced-Leads p qt w success _ _)

  -- An answer that comes in, or a worker that is done
  pub answer_call-Nearer :
      (w : World) (n : ℕ) (reply : Reply) (a : App) {call : Call} {others : List (Call × Request)}
      → take_call n a.calls ≡ some (call, others)
      → Waits a
      → Nearer a (answer_call p qt w n reply a)
  unfolding answer_call
  answer_call-Nearer w n reply a {call} {others} e h =
      let (total, many) = take_call-work n a.calls e in
      rw (answer_call, e) (resume-Nearer w call reply a others total many h)

  pub finish_derivation-Nearer :
      (w : World) (run : DeriveRun) (a : App)
      → a.derive ≡ some run
      → Nearer a (finish_derivation p qt w a)
  unfolding finish_derivation resume_derived
  finish_derivation-Nearer w run a e =
      maybe (Nearer a) a.derive (λ none_runs. absurd (cc (e, none_runs)))
        (λ (r : DeriveRun) runs.
          let l =
            resume_next-Leads w r.next (derived_secrets p qt r) (record a { derive = none }) in
          (omega (arith, ap derive_work runs, l.less, l.calls_left), l.waits))

  pub finish_pin_work-Nearer :
      (w : World) (run : PinRun) (a : App)
      → a.pin_work ≡ some run
      → Nearer a (finish_pin_work p qt w a)
  unfolding finish_pin_work
  finish_pin_work-Nearer w run a e =
      maybe (Nearer a) a.pin_work (λ none_runs. absurd (cc (e, none_runs)))
        (λ (r : PinRun) runs.
          let l = resume_pin-Leads w r (record a { pin_work = none }) in
          (omega (arith, ap pin_run_work runs, l.less, l.calls_left), l.waits))

  -- A worker that does not run changes nothing.
  pub finish_derivation-Waits :
      (w : World) (a : App) → (a.busy ≡ true → 1 ≤ work a) → Waits (finish_derivation p qt w a)
  unfolding finish_derivation resume_derived
  finish_derivation-Waits w a h =
      maybe Waits a.derive (λ none_runs alive. h)
        (λ (r : DeriveRun) runs.
          (resume_next-Leads w r.next (derived_secrets p qt r) (record a { derive = none })).waits)

  pub finish_pin_work-Waits :
      (w : World) (a : App) → (a.busy ≡ true → 1 ≤ work a) → Waits (finish_pin_work p qt w a)
  unfolding finish_pin_work
  finish_pin_work-Waits w a h =
      maybe Waits a.pin_work (λ none_runs alive. h)
        (λ (r : PinRun) runs. (resume_pin-Leads w r (record a { pin_work = none })).waits)
