-- ===== src/Vault/Session/Timer.antt =====
-- The auto-lock timer obeys the seconds that were set last.
use harbour_leyni.Prelude.{
  ◌*◌, ◌≤◌, ◌≡◌, refl, ◌∙◌, sym, ap, arith, true, Bool-cases, ◌⊎◌, inl, inr, if◌then◌else◌, ℕ,
}
use harbour_leyni.Vault.Json.{ℤ, pos, negsuc}
use harbour_leyni.Vault.Int.{mul_int, is_positive, mul_int-exact}
use harbour_leyni.Vault.State.{Vault, new_vault, set_auto_lock_seconds}

-- The interval in milliseconds, an `int`; 0 is no auto-lock.
abbrev pub auto_lock_interval : ℤ → ℤ
auto_lock_interval seconds = if is_positive seconds then mul_int seconds 1000 else pos 0

-- Up to 2147483 seconds, the interval is what was set.
auto_lock_interval-exact : (n : ℕ) → n ≤ 2_147_483 → auto_lock_interval (pos n) ≡ pos (n * 1000)
auto_lock_interval-exact n h = elim (Bool-cases (is_positive (pos n))) [
  | inl e ↦ rw e (mul_int-exact n 1000 (omega arith))
  | inr e ↦ ground arith
]

-- The interval is that of the seconds, and the timer runs only if there are any.
pub record Obeys (seconds : ℤ) (v : Vault) : Type 0 where
  pub interval : v.timer_interval ≡ auto_lock_interval seconds
  pub runs_if_set : v.timer_active ≡ true → is_positive seconds ≡ true

-- The interval is kept, and the timer is started only with an interval above 0.
abbrev pub SameTimer : Vault → Vault → Type 0
SameTimer v w =
    (w.timer_interval ≡ v.timer_interval)
    × (w.timer_active ≡ true → (v.timer_active ≡ true) ⊎ (is_positive v.timer_interval ≡ true))

pub SameTimer-trans : (u v w : Vault) → SameTimer u v → SameTimer v w → SameTimer u w
SameTimer-trans u v w (same, from) (same2, from2) = (
  same2 ∙ same,
  λ runs. elim (from2 runs) [
    | inl before ↦ from before
    | inr above ↦ inr (ap is_positive (sym same) ∙ above)
  ],
)

positive_seconds :
    (seconds : ℤ) → is_positive (auto_lock_interval seconds) ≡ true → is_positive seconds ≡ true
positive_seconds (pos n) h = ground arith
positive_seconds (negsuc n) h = cc h

pub SameTimer-Obeys :
    (seconds : ℤ) (v w : Vault) → Obeys seconds v → SameTimer v w → Obeys seconds w
SameTimer-Obeys seconds v w h (same, from) = record {
  interval = same ∙ h.interval;
  runs_if_set = λ runs. elim (from runs) [
    | inl before ↦ h.runs_if_set before
    | inr above ↦ positive_seconds seconds (ap is_positive (sym h.interval) ∙ above)
  ];
}

pub new_vault-Obeys : Obeys (pos 0) new_vault
new_vault-Obeys = record { interval = refl; runs_if_set = λ runs. cc runs }

pub set_auto_lock_seconds-Obeys :
    (seconds : ℤ) (v : Vault) → Obeys seconds (set_auto_lock_seconds seconds v)
unfolding set_auto_lock_seconds
set_auto_lock_seconds-Obeys seconds v = elim (Bool-cases (is_positive seconds)) [
  | inl e ↦ record { interval = rw e refl; runs_if_set = λ runs. e }
  | inr e ↦ record { interval = rw e refl; runs_if_set = λ runs. absurd (ground (arith, e, runs)) }
]
