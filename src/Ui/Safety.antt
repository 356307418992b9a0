-- ===== src/Ui/Safety.antt =====
-- What holds of the controller between steps: the page that shows secrets stands over an open vault,
-- and the budget of wrong PINs is not used up.
use harbour_leyni.Prelude.{
  ◌-◌, ◌≤◌, ◌<◌, ◌≡◌, refl, sym, ap, subst, ◌∙◌, arith, Bool, true, false, List, [], ◌∷◌, ◌++◌,
  length, length-append, take, take_append,
}
use harbour_leyni.Vault.Json.{ℤ}
use harbour_leyni.Vault.Qt.{Qt}
use harbour_leyni.Vault.State.{Vault}
use harbour_leyni.Vault.Session.Invariant.{IsVault, Alternates}
use harbour_leyni.Vault.Session.Timer.{Obeys, SameTimer-Obeys}
use harbour_leyni.Vault.Session.Signals.{Emits}
use harbour_leyni.Ui.State.{
  Page, setup, login, two_factor, locked, unlocked, Settings, App, after_lock, refresh_model, hear,
  hear_all, with_vault, to_seconds,
}

pub record IsSound (a : App) : Type 0 where
  pub is_vault : IsVault a.vault
  pub page_open : a.page ≡ unlocked → a.vault.locked ≡ false
  pub few_failures : a.settings.pin_failures < 3
  pub obeys : Obeys (to_seconds a.settings.auto_lock_minutes) a.vault

-- The members that the slots do not touch
pub record SameRest (a b : App) : Type 0 where
  pub same_vault : b.vault ≡ a.vault
  pub same_settings : b.settings ≡ a.settings
  pub same_sync_file : b.sync_file ≡ a.sync_file
  pub same_pin_file : b.pin_file ≡ a.pin_file
  pub same_secrets : b.pending_secrets ≡ a.pending_secrets
  pub same_hash : b.pending_hash ≡ a.pending_hash
  pub same_derive : b.derive ≡ a.derive
  pub same_pin_work : b.pin_work ≡ a.pin_work
  pub same_calls : b.calls ≡ a.calls

hear-SameRest : (qt : Qt) (b : Bool) (a c : App) → SameRest a c → SameRest a (hear qt b c)
unfolding hear refresh_model
hear-SameRest qt true a c h = record {
  same_vault = h.same_vault;
  same_settings = h.same_settings;
  same_sync_file = h.same_sync_file;
  same_pin_file = h.same_pin_file;
  same_secrets = h.same_secrets;
  same_hash = h.same_hash;
  same_derive = h.same_derive;
  same_pin_work = h.same_pin_work;
  same_calls = h.same_calls;
}
hear-SameRest qt false a c h = record {
  same_vault = h.same_vault;
  same_settings = h.same_settings;
  same_sync_file = h.same_sync_file;
  same_pin_file = h.same_pin_file;
  same_secrets = h.same_secrets;
  same_hash = h.same_hash;
  same_derive = h.same_derive;
  same_pin_work = h.same_pin_work;
  same_calls = h.same_calls;
}

hear_all-SameRest : (qt : Qt) (bs : List Bool) (a : App) → SameRest a (hear_all qt bs a)
unfolding hear_all
hear_all-SameRest qt [] a = record {
  same_vault = refl;
  same_settings = refl;
  same_sync_file = refl;
  same_pin_file = refl;
  same_secrets = refl;
  same_hash = refl;
  same_derive = refl;
  same_pin_work = refl;
  same_calls = refl;
}
hear_all-SameRest qt (b ∷ bs) a = hear-SameRest qt b a _ (hear_all-SameRest qt bs a)

pub with_vault-SameRest :
    (qt : Qt) (v : Vault) (a : App) → SameRest (record a { vault = v }) (with_vault qt v a)
unfolding with_vault
with_vault-SameRest qt v a = hear_all-SameRest qt _ _

not_unlocked : (page : Page) → after_lock page ≡ unlocked → 1 ≤ 0
unfolding after_lock
not_unlocked setup e = cc e
not_unlocked login e = cc e
not_unlocked two_factor e = cc e
not_unlocked locked e = cc e
not_unlocked unlocked e = cc e

-- The state that the last signal told is the present one.
same_lock : (x y : Bool) (bs : List Bool) → Alternates x bs → Alternates y bs → x ≡ y
same_lock true true [] h k = refl
same_lock true false [] h k = absurd (omega (arith, k))
same_lock false y [] h k = absurd (omega (arith, h))
same_lock true y (b ∷ bs) h k = sym h.0 ∙ k.0
same_lock false y (b ∷ bs) h k = sym h.0 ∙ k.0

-- The page after the signals, of a vault that they lead to the state `now`.
hear_all-page :
    (qt : Qt) (news old : List Bool) (before now : Bool) (a : App)
    → Alternates before old
    → Alternates now (news ++ old)
    → (a.page ≡ unlocked → before ≡ false)
    → (hear_all qt news a).page ≡ unlocked
    → now ≡ false
unfolding hear_all hear refresh_model
hear_all-page qt [] old before now a was is opened e = same_lock now before old is was ∙ opened e
hear_all-page qt (true ∷ news) old before now a was is opened e =
    absurd (omega (arith, not_unlocked _ e))
hear_all-page qt (false ∷ news) old before true a was is opened e = sym is.0
hear_all-page qt (false ∷ news) old before false a was is opened e = refl

new_signals :
    (news old all : List Bool) → all ≡ news ++ old → take (length all - length old) all ≡ news
new_signals news old all e =
    let count : length all - length old ≡ length news =
      omega (arith, ap (λ (bs : List Bool). length bs) e, length-append news old) in
    rw (count, e) (take_append news old)

-- A call of the vault, with its slots, keeps the invariant.
pub with_vault-IsSound :
    (qt : Qt) (v : Vault) (a : App)
    → IsSound a
    → IsVault v
    → Emits a.vault v
    → IsSound (with_vault qt v a)
unfolding with_vault
with_vault-IsSound qt v a h sound (news, e, timer) =
    let rest = with_vault-SameRest qt v a in
    let heard : App = record a { vault = v } in
    let same = new_signals news a.vault.emitted v.emitted e in
    record {
      is_vault = subst IsVault (sym rest.same_vault) sound;
      page_open = λ shown.
          ap (λ (u : Vault). u.locked) rest.same_vault
          ∙ hear_all-page qt news a.vault.emitted a.vault.locked v.locked heard h.is_vault.signals
              (subst (Alternates v.locked) e sound.signals) h.page_open
              (sym (ap (λ (bs : List Bool). (hear_all qt bs heard).page) same) ∙ shown);
      few_failures =
          subst (λ (s : Settings). s.pin_failures < 3) (sym rest.same_settings) h.few_failures;
      obeys =
          subst (λ (s : Settings). Obeys (to_seconds s.auto_lock_minutes) (with_vault qt v a).vault)
            (sym rest.same_settings)
            (subst (Obeys (to_seconds a.settings.auto_lock_minutes)) (sym rest.same_vault)
              (SameTimer-Obeys _ a.vault v h.obeys timer));
    }

kept-Obeys :
    (a b : App)
    → b.vault ≡ a.vault
    → b.settings.auto_lock_minutes ≡ a.settings.auto_lock_minutes
    → IsSound a
    → Obeys (to_seconds b.settings.auto_lock_minutes) b.vault
kept-Obeys a b vault minutes h =
    subst (λ (m : ℤ). Obeys (to_seconds m) b.vault) (sym minutes)
      (subst (Obeys (to_seconds a.settings.auto_lock_minutes)) (sym vault) h.obeys)

-- Another state with the same vault, page, count and minutes
pub kept :
    (a b : App)
    → b.vault ≡ a.vault
    → b.page ≡ a.page
    → b.settings.pin_failures ≡ a.settings.pin_failures
    → b.settings.auto_lock_minutes ≡ a.settings.auto_lock_minutes
    → IsSound a
    → IsSound b
kept a b vault page failures minutes h = record {
  is_vault = subst IsVault (sym vault) h.is_vault;
  page_open = λ shown. ap (λ (v : Vault). v.locked) vault ∙ h.page_open (sym page ∙ shown);
  few_failures = omega (arith, failures, h.few_failures);
  obeys = kept-Obeys a b vault minutes h;
}

-- Another page, and a count that is small enough
pub turned :
    (a b : App)
    → b.vault ≡ a.vault
    → b.settings.auto_lock_minutes ≡ a.settings.auto_lock_minutes
    → (b.page ≡ unlocked → b.vault.locked ≡ false)
    → b.settings.pin_failures < 3
    → IsSound a
    → IsSound b
turned a b vault minutes page_open failures h = record {
  is_vault = subst IsVault (sym vault) h.is_vault;
  page_open = page_open;
  few_failures = failures;
  obeys = kept-Obeys a b vault minutes h;
}
