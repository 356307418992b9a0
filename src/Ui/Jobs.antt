-- ===== src/Ui/Jobs.antt =====
-- What the controller waits for, and what a callback leaves of it.
use harbour_leyni.Prelude.{
  ℕ, zero, suc, ◌+◌, ◌≤◌, ◌<◌, ◌≡◌, refl, ap, arith, Bool, true, false, List, [], ◌∷◌, ◌++◌, Option,
  none, some, Option-cases, inl, inr, Bytes, length, length-append,
}
use harbour_leyni.Crypto.Kdf.Params.{KdfParams}
use harbour_leyni.Vault.Qt.{Qt}
use harbour_leyni.Vault.State.{Vault}
use harbour_leyni.Api.Client.{Request}
use harbour_leyni.Ui.State.{
  App, DeriveNext, then_login, then_unlock, then_enable_pin, DeriveRun, PinRun, Write, Call,
  prelogin_call, login_call, two_factor_call, email_code_call, login_sync_call, refresh_call,
  sync_call, write_call, refresh_write_call, retried_write_call, write_sync_call, hear, hear_all,
  with_vault, await,
}
use harbour_leyni.Ui.Session.{derive_async}
use harbour_leyni.Ui.Pin.{run_pin_worker}
use harbour_leyni.Ui.Controller.{take_call}

-- How many requests and runs of a worker a callback may still lead to. The mail with a code
-- is not waited for.
abbrev pub call_work : Call → ℕ
call_work (prelogin_call password) = 4
call_work login_call = 2
call_work two_factor_call = 2
call_work email_code_call = 0
call_work login_sync_call = 1
call_work (refresh_call fresh_login) = 2
call_work (sync_call fresh_login) = 1
call_work (write_call write success) = 4
call_work (refresh_write_call write success) = 3
call_work (retried_write_call write success) = 2
call_work (write_sync_call success) = 1

abbrev pub next_work : DeriveNext → ℕ
next_work then_login = 3
next_work then_unlock = 1
next_work (then_enable_pin pin) = 2

abbrev pub calls_work : List (Call × Request) → ℕ
calls_work [] = 0
calls_work ((call, request) ∷ calls) = call_work call + calls_work calls

abbrev pub derive_work : Option DeriveRun → ℕ
derive_work none = 0
derive_work (some run) = next_work run.next

abbrev pub pin_run_work : Option PinRun → ℕ
pin_run_work none = 0
pin_run_work (some run) = 1

abbrev pub work : App → ℕ
work a = calls_work a.calls + derive_work a.derive + pin_run_work a.pin_work

-- Who is busy waits for something, unless the program has crashed.
abbrev pub Waits : App → Type 0
Waits a = a.crashed ≡ false → a.busy ≡ true → 1 ≤ work a

-- `b` is busy as `a` is, and waits for the same.
pub record SameJobs (a b : App) : Type 0 where
  pub same_calls : b.calls ≡ a.calls
  pub same_derive : b.derive ≡ a.derive
  pub same_pin_work : b.pin_work ≡ a.pin_work
  pub same_busy : b.busy ≡ a.busy

hear-SameJobs : (qt : Qt) (b : Bool) (a c : App) → SameJobs a c → SameJobs a (hear qt b c)
unfolding hear harbour_leyni.Ui.State.refresh_model
hear-SameJobs qt true a c h = record {
  same_calls = h.same_calls;
  same_derive = h.same_derive;
  same_pin_work = h.same_pin_work;
  same_busy = h.same_busy;
}
hear-SameJobs qt false a c h = record {
  same_calls = h.same_calls;
  same_derive = h.same_derive;
  same_pin_work = h.same_pin_work;
  same_busy = h.same_busy;
}

hear_all-SameJobs :
    (qt : Qt) (bs : List Bool) (a c : App) → SameJobs a c → SameJobs a (hear_all qt bs c)
unfolding hear_all
hear_all-SameJobs qt [] a c h = h
hear_all-SameJobs qt (b ∷ bs) a c h = hear-SameJobs qt b a _ (hear_all-SameJobs qt bs a c h)

pub with_vault-SameJobs : (qt : Qt) (v : Vault) (a : App) → SameJobs a (with_vault qt v a)
unfolding with_vault
with_vault-SameJobs qt v a =
    hear_all-SameJobs qt _ a _
      (record { same_calls = refl; same_derive = refl; same_pin_work = refl; same_busy = refl })

pub SameJobs-work : (a b : App) → SameJobs a b → work b ≡ work a
SameJobs-work a b h = omega (
  arith,
  ap calls_work h.same_calls,
  ap derive_work h.same_derive,
  ap pin_run_work h.same_pin_work,
)

pub calls_work-append :
    (calls : List (Call × Request)) (call : Call) (request : Request)
    → calls_work (calls ++ (call, request) ∷ []) ≡ calls_work calls + call_work call
calls_work-append [] call request = omega arith
calls_work-append (sent ∷ calls) call request = omega (arith, calls_work-append calls call request)

pair_work :
    (q r : Call × List (Call × Request))
    → q ≡ r
    → (call_work q.0 ≡ call_work r.0)
      × (calls_work q.1 ≡ calls_work r.1)
      × (length q.1 ≡ length r.1)
pair_work q r e = (ap (λ s. call_work s.0) e, ap (λ s. calls_work s.1) e, ap (λ s. length s.1) e)

-- A call that is taken out is counted out.
pub take_call-work :
    (n : ℕ) (calls : List (Call × Request)) {call : Call} {others : List (Call × Request)}
    → take_call n calls ≡ some (call, others)
    → (calls_work calls ≡ call_work call + calls_work others) × (length calls ≡ length others + 1)
unfolding take_call
take_call-work n [] e = cc e
take_call-work zero ((first, request) ∷ calls) {call} {others} e =
    let same = pair_work (first, calls) (call, others) (ground (arith, e)) in ground (arith, same)
take_call-work (suc n) ((first, request) ∷ calls) {call} {others} e =
    elim (Option-cases (take_call n calls)) [
      | inl missing ↦ absurd (ground (arith, missing))
      | inr ((found, left), there) ↦
          let h = take_call-work n calls there in
          let same =
            pair_work (found, (first, request) ∷ left) (call, others) (ground (arith, there)) in
          ground (arith, h, same)
    ]

-- What a callback leaves: it is done, or it is followed by less than `most` that is waited for.
pub record Leads (most : ℕ) (a b : App) : Type 0 where
  pub less : work b + 1 ≤ work a + most
  pub calls_left : length b.calls ≤ length a.calls + 1
  pub waits : Waits b

-- A callback that ends the wait.
pub ends :
    (most : ℕ) (a b : App)
    → 1 ≤ most
    → (work b ≡ work a)
    → (b.calls ≡ a.calls)
    → b.busy ≡ false
    → Leads most a b
ends most a b some_most same same_calls idle = record {
  less = omega (arith, same);
  calls_left = omega (arith, ap (λ (c : List (Call × Request)). length c) same_calls);
  waits = λ alive busy. absurd (cc (busy, idle));
}

-- A callback that sends the next request.
pub sends :
    (most : ℕ) (a b : App) (call : Call) (request : Request)
    → 1 ≤ call_work call
    → call_work call < most
    → b.calls ≡ a.calls ++ (call, request) ∷ []
    → b.derive ≡ a.derive
    → b.pin_work ≡ a.pin_work
    → Leads most a b
sends most a b call request some_work less_work calls derive pin_work =
    let total = calls_work-append a.calls call request in
    let same_calls = ap calls_work calls in
    let same_derive = ap derive_work derive in
    let same_pin_work = ap pin_run_work pin_work in
    record {
      less = omega (arith, total, same_calls, same_derive, same_pin_work);
      calls_left = omega (
        arith,
        ap (λ (c : List (Call × Request)). length c) calls,
        length-append a.calls ((call, request) ∷ []),
      );
      waits = λ alive busy. omega (arith, total, same_calls, same_derive, same_pin_work);
    }

-- A derivation that was running, or starts now: someone waits.
pub some_next_work : (next : DeriveNext) → 1 ≤ next_work next
some_next_work then_login = omega arith
some_next_work then_unlock = omega arith
some_next_work (then_enable_pin pin) = omega arith

pub derive_async-Leads :
    (most : ℕ) (password : Bytes) (params : KdfParams) (next : DeriveNext) (a : App)
    → next_work next < most
    → Leads most a (derive_async password params next a)
unfolding derive_async
derive_async-Leads most password params next a h = elim (Option-cases a.derive) [
  | inr (run, e) ↦
      let some_work = some_next_work run.next in
      let same = ap derive_work e in
      rw (derive_async, e)
        (record {
          less = omega (arith, h);
          calls_left = omega arith;
          waits = λ alive busy. omega (arith, some_work, same);
        })
  | inl e ↦
      let some_work = some_next_work next in
      let same = ap derive_work e in
      rw (derive_async, e)
        (record {
          less = omega (arith, h, same);
          calls_left = omega arith;
          waits = λ alive busy. omega (arith, some_work);
        })
]

pub run_pin_worker-Leads :
    (most : ℕ) (run : PinRun) (a : App) → 1 < most → Leads most a (run_pin_worker run a)
unfolding run_pin_worker
run_pin_worker-Leads most run a h = elim (Option-cases a.pin_work) [
  | inr (other, e) ↦
      let same = ap pin_run_work e in
      rw (run_pin_worker, e)
        (record {
          less = omega (arith, h);
          calls_left = omega arith;
          waits = λ alive busy. omega (arith, same);
        })
  | inl e ↦
      let same = ap pin_run_work e in
      rw (run_pin_worker, e)
        (record {
          less = omega (arith, h, same);
          calls_left = omega arith;
          waits = λ alive busy. omega arith;
        })
]

-- What leads on from a state with the same jobs.
pub from : (most : ℕ) (a c b : App) → SameJobs a c → Leads most c b → Leads most a b
from most a c b h l =
    let same = SameJobs-work a c h in
    let same_calls = ap (λ (s : List (Call × Request)). length s) h.same_calls in
    record {
      less = omega (arith, same, l.less);
      calls_left = omega (arith, same_calls, l.calls_left);
      waits = l.waits;
    }

pub awaits :
    (most : ℕ) (a b : App) (call : Call) (request : Request)
    → SameJobs a b
    → 1 ≤ call_work call
    → call_work call < most
    → Leads most a (await call request b)
awaits most a b call request h some_work less_work =
    from most a b _ h
      (sends most b (await call request b) call request some_work less_work refl refl refl)
