-- ===== src/Ui/Locking.antt =====
-- What minimising, signing out and wrong PINs leave behind.
use harbour_leyni.Prelude.{
  ◌≡◌, ◌≢◌, refl, sym, ap, subst, ◌∙◌, arith, Bool, true, false, ◌&&◌, ◌||◌, not, inl, inr, [],
  none, some, Bool-cases, either, err, CryptoError,
}
use harbour_leyni.Crypto.Primitives.{Primitives}
use harbour_leyni.Vault.Qt.{Qt}
use harbour_leyni.Vault.State.{lock}
use harbour_leyni.Vault.Stores.{File, exists, clear}
use harbour_leyni.Vault.Session.Invariant.{IsSealed, lock-IsSealed}
use harbour_leyni.Ui.State.{Page, unlocked, login, App, World, with_vault}
use harbour_leyni.Ui.Account.{lock_app, handle_app_state_changed, forget_pin, sign_out}
use harbour_leyni.Ui.Pin.{pin_unwrapped}
use harbour_leyni.Ui.Safety.{with_vault-SameRest}
use harbour_leyni.Ui.Reachable.{Reachable}
use harbour_leyni.Ui.Guarantees.{Reachable-IsSound}

-- No secret of the vault is in memory, and the page shows none.
abbrev pub IsHidden : App → Type 0
IsHidden a = IsSealed a.vault × (a.page ≢ unlocked)

module _ (p : Primitives) (qt : Qt) where
  lock_app-IsHidden : (a : App) → IsHidden (lock_app qt a)
  unfolding lock_app
  lock_app-IsHidden a =
      let b = with_vault qt (lock a.vault) a in
      (
        subst IsSealed (sym (with_vault-SameRest qt (lock a.vault) a).same_vault)
            (lock-IsSealed a.vault),
        either (λ (g : Page). g ≢ unlocked) (exists b.sync_file || not b.vault.locked)
            (λ there shown. cc shown) (λ missing shown. cc shown),
      )

  -- When the program leaves the foreground and locking on minimise is on, the vault is sealed
  -- afterwards and the page is not "unlocked", in every state that a start and steps lead to.
  pub minimise-IsHidden :
      (a : App)
      → Reachable p qt a
      → a.settings.lock_on_minimize ≡ true
      → IsHidden (handle_app_state_changed qt false a)
  unfolding handle_app_state_changed
  minimise-IsHidden a reached on =
      let h = Reachable-IsSound p qt a reached in
      elim (Bool-cases a.vault.locked) [
        | inr opened ↦
            either IsHidden (a.settings.lock_on_minimize && not a.vault.locked)
              (λ leaves. lock_app-IsHidden a) (λ stays. absurd (ground (arith, on, opened, stays)))
        | inl closed ↦
            either IsHidden (a.settings.lock_on_minimize && not a.vault.locked)
              (λ leaves. lock_app-IsHidden a)
              (λ stays. (
                elim h.is_vault.state [
                  | inl sealed ↦ sealed
                  | inr o ↦ absurd (cc (closed, o.not_locked))
                ],
                λ shown. cc (closed, h.page_open shown),
              ))
      ]

clear-none : (file : File) → (clear true file).0 ≡ none
unfolding clear
clear-none none = refl
clear-none (some content) = refl

-- What signing out does not touch: the secrets and the hash of a sign in that waits for its second
-- factor, the workers that run, and the requests that wait.
abbrev pub KeepsPending : App → App → Type 0
KeepsPending a b =
    (b.pending_secrets ≡ a.pending_secrets)
    × (b.pending_hash ≡ a.pending_hash)
    × (b.derive ≡ a.derive)
    × (b.pin_work ≡ a.pin_work)
    × (b.calls ≡ a.calls)

-- After signing out, on a disk that removes what is there: the vault is sealed, both files are gone,
-- both tokens are empty, the stored one too, and the page is "login". The secrets and the hash of a
-- sign in that is under way, the workers that run and the requests that wait are as before.
pub sign_out_lem :
    (qt : Qt) (w : World) (a : App)
    → w.sync_removed ≡ true
    → w.pin_removed ≡ true
    → IsSealed (sign_out qt w a).vault
      × ((sign_out qt w a).sync_file ≡ none)
      × ((sign_out qt w a).pin_file ≡ none)
      × ((sign_out qt w a).access_token ≡ [])
      × ((sign_out qt w a).refresh_token ≡ [])
      × ((sign_out qt w a).settings.refresh_token ≡ [])
      × ((sign_out qt w a).page ≡ login)
      × KeepsPending a (sign_out qt w a)
unfolding sign_out forget_pin
sign_out_lem qt w a sync pin =
    let b = with_vault qt (lock a.vault) a in
    let rest = with_vault-SameRest qt (lock a.vault) a in
    (
      subst IsSealed (sym rest.same_vault) (lock-IsSealed a.vault),
      ap (λ (r : Bool). (clear r b.sync_file).0) sync ∙ clear-none b.sync_file,
      ap (λ (r : Bool). (clear r b.pin_file).0) pin ∙ clear-none b.pin_file,
      refl,
      refl,
      refl,
      refl,
      (rest.same_secrets, rest.same_hash, rest.same_derive, rest.same_pin_work, rest.same_calls),
    )

module _ (p : Primitives) (qt : Qt) where
  -- A PIN that does not unwrap the key
  abbrev pub wrong_pin_in : World → CryptoError → App → App
  wrong_pin_in w e a = pin_unwrapped p qt w (err e) a
