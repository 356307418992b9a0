-- ===== src/Ui/Reachable.antt =====
-- The states of the controller that a start and steps lead to: a busy one waits for something, and no
-- wait is without end.
use harbour_leyni.Prelude.{
  ℕ, zero, suc, ◌+◌, ◌≤◌, ◌<◌, ◌≡◌, ◌⊎◌, inl, inr, refl, ap, arith, true, false, List, [], ◌∷◌,
  some, Option-cases, Bool-cases, ◌==◌, Bytes, either, is_empty,
}
use harbour_leyni.Crypto.Primitives.{Primitives}
use harbour_leyni.Vault.Qt.{Qt}
use harbour_leyni.Vault.Items.{answered}
use harbour_leyni.Vault.Session.{load_sync}
use harbour_leyni.Vault.Stores.{File, exists, load}
use harbour_leyni.Api.Client.{Request, Reply}
use harbour_leyni.Ui.State.{Settings, App, World, DeriveRun, PinRun, Call}
use harbour_leyni.Ui.Account.{first_page, new_app}
use harbour_leyni.Ui.Controller.{Event, take_call, react, step}
use harbour_leyni.Ui.Jobs.{call_work, calls_work, derive_work, pin_run_work, work, Waits}
use harbour_leyni.Ui.Waiting.{
  rank, answer_call-Nearer, finish_derivation-Nearer, finish_pin_work-Nearer,
}
use harbour_leyni.Ui.Liveness.{react-Waits}

-- The settings of a start are those of an earlier run: fewer PINs have failed than are allowed.
pub data Reachable (p : Primitives) (qt : Qt) : App → Type 0 where
  start :
      (settings : Settings) (sync_file pin_file : File) (clipboard : Bytes)
      → settings.pin_failures < 3
      → Reachable p qt (new_app qt settings sync_file pin_file clipboard)
  next :
      (w : World) (event : Event) (a : App)
      → Reachable p qt a
      → Reachable p qt (step p qt w event a)

-- A request whose reply the busy program waits for, or a worker that runs.
abbrev pub HasOutstanding : App → Type 0
HasOutstanding a =
    ((n : ℕ) × (call : Call) × (others : List (Call × Request)) × (take_call n a.calls
        ≡ some (call, others))
      × (1 ≤ call_work call))
    ⊎ ((run : DeriveRun) × (a.derive ≡ some run))
    ⊎ ((run : PinRun) × (a.pin_work ≡ some run))

first_page-busy : (qt : Qt) (a : App) → (first_page qt a).busy ≡ a.busy
unfolding first_page
first_page-busy qt a =
    either (λ (b : App). b.busy ≡ a.busy) (is_empty a.settings.email) (λ none_set. refl)
      (λ some_set.
        either (λ (b : App). b.busy ≡ a.busy) (exists a.sync_file)
          (λ there.
            answered (λ (b : App). b.busy ≡ a.busy) (load_sync qt (load a.sync_file) a.vault).1
              (λ n good. refl) (λ f bad. refl))
          (λ missing. refl))

Reachable-Waits : (p : Primitives) (qt : Qt) (a : App) → Reachable p qt a → Waits a
unfolding new_app step
Reachable-Waits p qt _ (start settings sync_file pin_file clipboard few) =
    λ alive busy. absurd (cc (first_page-busy qt _, busy))
Reachable-Waits p qt _ (next w event a before) =
    let h = Reachable-Waits p qt a before in
    either Waits a.crashed (λ dead. h) (λ alive. react-Waits p qt w event a (h alive))

outstanding_call :
    (calls : List (Call × Request))
    → 1 ≤ calls_work calls
    → (n : ℕ) × (call : Call) × (others : List (Call × Request)) × (take_call n calls
        ≡ some (call, others))
      × (1 ≤ call_work call)
unfolding take_call
outstanding_call [] h = absurd (omega (arith, h))
outstanding_call ((call, request) ∷ calls) h = elim (Bool-cases (call_work call == 0)) [
  | inr some_work ↦ (zero, call, calls, refl, ground (arith, some_work))
  | inl no_work ↦
      let (n, found, others, there, some_work) =
        outstanding_call calls (ground (arith, h, no_work)) in
      (suc n, found, (call, request) ∷ others, rw there refl, some_work)
]

outstanding : (a : App) → 1 ≤ work a → HasOutstanding a
outstanding a h = elim (Option-cases a.derive) [
  | inr runs ↦ inr (inl runs)
  | inl none_derives ↦ elim (Option-cases a.pin_work) [
    | inr runs ↦ inr (inr runs)
    | inl none_works ↦
        let no_derive = ap derive_work none_derives in
        let no_pin = ap pin_run_work none_works in
        inl (outstanding_call a.calls (omega (arith, h, no_derive, no_pin)))
  ]
]

-- The reply to a call that waits comes in, or a worker that runs is done.
pub data Completes (p : Primitives) (qt : Qt) : App → App → Type 0 where
  replies :
      (w : World) (n : ℕ) (reply : Reply) (a : App) (call : Call) (others : List (Call × Request))
      → take_call n a.calls ≡ some (call, others)
      → Completes p qt a (step p qt w (Event.replied n reply) a)
  derives :
      (w : World) (a : App) (run : DeriveRun)
      → a.derive ≡ some run
      → Completes p qt a (step p qt w Event.derivation_finished a)
  works_pin :
      (w : World) (a : App) (run : PinRun)
      → a.pin_work ≡ some run
      → Completes p qt a (step p qt w Event.pin_work_finished a)

-- So many of these, one after the other
pub data Run (p : Primitives) (qt : Qt) : ℕ → App → App → Type 0 where
  done : (a : App) → Run p qt 0 a a
  then_run :
      (n : ℕ) (a b c : App)
      → Completes p qt a b
      → b.crashed ≡ false
      → Run p qt n b c
      → Run p qt (n + 1) a c

module _ (p : Primitives) (qt : Qt) where
  Completes-Nearer :
      (a b : App) → Completes p qt a b → a.crashed ≡ false → Waits a → (rank b < rank a) × Waits b
  unfolding step react
  Completes-Nearer a _ (replies w n reply _ call others there) alive h =
      either (λ (b : App). (rank b < rank a) × Waits b) a.crashed
        (λ dead. absurd (cc (dead, alive))) (λ running. answer_call-Nearer p qt w n reply a there h)
  Completes-Nearer a _ (derives w _ run runs) alive h =
      either (λ (b : App). (rank b < rank a) × Waits b) a.crashed
        (λ dead. absurd (cc (dead, alive))) (λ running. finish_derivation-Nearer p qt w run a runs)
  Completes-Nearer a _ (works_pin w _ run runs) alive h =
      either (λ (b : App). (rank b < rank a) × Waits b) a.crashed
        (λ dead. absurd (cc (dead, alive))) (λ running. finish_pin_work-Nearer p qt w run a runs)

  Run-rank :
      (n : ℕ) (a b : App)
      → Run p qt n a b
      → a.crashed ≡ false
      → Waits a
      → (n + rank b ≤ rank a) × Waits b
  Run-rank _ a _ (done _) alive h = (omega arith, h)
  Run-rank _ a c (then_run n _ b _ first alive_b rest) alive h =
      let (nearer, waits) = Completes-Nearer a b first alive h in
      let (bound, left) = Run-rank n b c rest alive_b waits in (omega (arith, nearer, bound), left)

  -- In every state that a start and steps lead to, a program that runs and shows that it is busy waits
  -- for the reply to a request or for a worker.
  pub busy-HasOutstanding :
      (a : App) → Reachable p qt a → a.crashed ≡ false → a.busy ≡ true → HasOutstanding a
  busy-HasOutstanding a reached alive busy =
      outstanding a (Reachable-Waits p qt a reached alive busy)

  -- From every state that a start and steps lead to, replies and workers that are done follow one
  -- another only so many times, whatever the replies are: no more than `rank` says, if no call of
  -- the user comes between and the program does not crash. When nothing is outstanding, the
  -- program is not busy.
  pub runs_end :
      (n : ℕ) (a b : App)
      → Reachable p qt a
      → a.crashed ≡ false
      → b.crashed ≡ false
      → Run p qt n a b
      → (n ≤ rank a) × (¬ HasOutstanding b → b.busy ≡ false)
  runs_end n a b reached alive alive_b run =
      let (bound, waits) = Run-rank n a b run alive (Reachable-Waits p qt a reached) in
      (
        omega (arith, bound),
        λ none_left. elim (Bool-cases b.busy) [
          | inr idle ↦ idle
          | inl busy ↦ absurd (none_left (outstanding b (waits alive_b busy)))
        ],
      )
