-- ===== src/Vault/Session/Unlock.antt =====
-- What an unlocking that succeeds has checked, and what one that fails leaves behind.
use harbour_leyni.Prelude.{
  ◌≤◌, ◌≡◌, refl, sym, ap, subst, ◌∙◌, arith, false, Bool-cases, ◌++◌, inl, inr, Bytes, is_empty,
  is_empty-of_length, length, Result, ok, ◌>>=◌, Result-cases,
}
use harbour_leyni.Crypto.Primitives.{Primitives}
use harbour_leyni.Crypto.Keys.{SymmetricKey, symmetric_key_from_bytes_sound, stretch_master_key}
use harbour_leyni.Vault.Qt.{Qt}
use harbour_leyni.Vault.Items.{SyncData, Failure, answer, failure}
use harbour_leyni.Vault.State.{Vault, lock}
use harbour_leyni.Vault.Access.{decrypt_bytes}
use harbour_leyni.Vault.Session.{
  open_vault, build_user_key, unlock_stretched, unlock_with_master_key, verify_master_key,
}
use harbour_leyni.Vault.Session.Invariant.{IsSealed, AreKeys, lock-IsSealed}
use harbour_leyni.Vault.Session.Preserve.{build_user_key_parts}

lock_keys : (v : Vault) → AreKeys (lock v).org_keys
lock_keys v = subst AreKeys (sym (lock-IsSealed v).no_org_keys) tt

lock_data : (v : Vault) → (lock v).sync_data ≡ v.sync_data
unfolding lock
lock_data v = refl

lock_profile_key : (v : Vault) → (lock v).sync_data.profile_key ≡ v.sync_data.profile_key
lock_profile_key v = ap (λ (d : SyncData). d.profile_key) (lock_data v)

open_vault_parts :
    (u : Vault) {w : Vault}
    → open_vault u ≡ w
    → (w.sync_data ≡ u.sync_data) × (w.user_key ≡ u.user_key) × (w.locked ≡ false)
unfolding open_vault
open_vault_parts u h = (
  ap (λ (x : Vault). x.sync_data) (sym h),
  ap (λ (x : Vault). x.user_key) (sym h),
  ap (λ (x : Vault). x.locked) (sym h),
)

module _ (p : Primitives) (qt : Qt) where
  verified :
      (master_key : Bytes) (v : Vault) {stretched : SymmetricKey} {raw : Bytes}
      → is_empty v.sync_data.profile_key ≡ false
      → stretch_master_key p master_key ≡ ok stretched
      → decrypt_bytes p v.sync_data.profile_key stretched ≡ ok raw
      → verify_master_key p master_key v ≡ answer tt
  unfolding verify_master_key
  verified master_key v loaded e decrypted = ground (arith, loaded, e, decrypted)

  unlock_stretched-IsSealed :
      (stretched : SymmetricKey) (v : Vault) {w : Vault} {f : Failure}
      → IsSealed v
      → unlock_stretched p qt stretched v ≡ (w, failure f)
      → IsSealed w
  unfolding unlock_stretched
  unlock_stretched-IsSealed stretched v {w} {f} s h =
      elim (Result-cases (decrypt_bytes p v.sync_data.profile_key stretched)) [
        | inr (thrown_error, e) ↦ let same : v ≡ w = ground (arith, e) in subst IsSealed same s
        | inl (raw, e) ↦ elim (Result-cases (build_user_key p qt v raw)) [
          | inr (thrown_error, e2) ↦
              let same : lock v ≡ w = ground (arith, e, e2) in subst IsSealed same (lock-IsSealed v)
          | inl (u, e2) ↦ absurd (ground (arith, e, e2))
        ]
      ]

  -- An attempt to unlock that fails, with a sync loaded, leaves a vault that is locked and holds no
  -- key and nothing decrypted, whatever it held before.
  pub unlock_with_master_key-IsSealed :
      (master_key : Bytes) (v : Vault) {w : Vault} {f : Failure}
      → 1 ≤ length v.sync_data.profile_key
      → unlock_with_master_key p qt master_key v ≡ (w, failure f)
      → IsSealed w
  unfolding unlock_with_master_key
  unlock_with_master_key-IsSealed master_key v {w} {f} some_key h =
      let loaded = is_empty-of_length v.sync_data.profile_key some_key in
      elim (Result-cases (stretch_master_key p master_key)) [
        | inr (thrown_error, e) ↦
            let same : lock (lock v) ≡ w = ground (arith, loaded, e) in
            subst IsSealed same (lock-IsSealed (lock v))
        | inl (stretched, e) ↦
            unlock_stretched-IsSealed stretched (lock v) {f = f} (lock-IsSealed v)
              (ground (arith, loaded, e))
      ]

  unlock_stretched_parts :
      (stretched : SymmetricKey) (v : Vault) {w : Vault}
      → unlock_stretched p qt stretched v ≡ (w, answer tt)
      → (raw : Bytes) × (decrypt_bytes p v.sync_data.profile_key stretched ≡ ok raw)
        × ((u : Vault) × (build_user_key p qt v raw ≡ ok u) × (open_vault u ≡ w))
  unfolding unlock_stretched
  unlock_stretched_parts stretched v {w} h =
      elim (Result-cases (decrypt_bytes p v.sync_data.profile_key stretched)) [
        | inr (thrown_error, e) ↦ absurd (ground (arith, e))
        | inl (raw, e) ↦ elim (Result-cases (build_user_key p qt v raw)) [
          | inr (thrown_error, e2) ↦ absurd (ground (arith, e, e2))
          | inl (u, e2) ↦ (raw, e, (u, e2, ground (arith, e, e2)))
        ]
      ]

  -- A vault that unlocks with a master key had a sync loaded, and the check of a re-entered password
  -- accepts the same master key; the protected key decrypts under the stretched master key to the 64
  -- bytes of the user key; the data are as they were, and the vault is unlocked.
  pub unlock_with_master_key_sound :
      (master_key : Bytes) (v : Vault) {w : Vault}
      → unlock_with_master_key p qt master_key v ≡ (w, answer tt)
      → (verify_master_key p master_key v ≡ answer tt)
        × ((stretch_master_key p master_key >>= decrypt_bytes p v.sync_data.profile_key)
            ≡ ok (w.user_key.enc_key ++ w.user_key.mac_key))
        × (w.sync_data ≡ v.sync_data)
        × (w.locked ≡ false)
  unfolding unlock_with_master_key
  unlock_with_master_key_sound master_key v {w} h =
      elim (Bool-cases (is_empty v.sync_data.profile_key)) [
        | inl none_loaded ↦ absurd (ground (arith, none_loaded))
        | inr loaded ↦ elim (Result-cases (stretch_master_key p master_key)) [
          | inr (thrown_error, e) ↦ absurd (ground (arith, loaded, e))
          | inl (stretched, e) ↦
              let (raw, decrypts, (u, builds, opens)) =
                unlock_stretched_parts stretched (lock v) {w = w} (ground (arith, loaded, e)) in
              let (key, is_key, built) =
                build_user_key_parts p qt (lock v) raw (lock_keys v) builds in
              let (same_data, same_key, unlocked) = open_vault_parts u opens in
              let decrypted : decrypt_bytes p v.sync_data.profile_key stretched ≡ ok raw =
                ap (λ (text : Bytes). decrypt_bytes p text stretched) (sym (lock_profile_key v))
                ∙ decrypts in
              let whole = (symmetric_key_from_bytes_sound raw is_key).1 in
              let user_key = same_key ∙ built.same_key in
              (
                verified master_key v loaded e decrypted,
                ap (λ (r : Result SymmetricKey). r >>= decrypt_bytes p v.sync_data.profile_key) e
                    ∙ decrypted
                    ∙ ap ok
                        (sym (ap (λ (k : SymmetricKey). k.enc_key ++ k.mac_key) user_key ∙ whole)),
                same_data ∙ built.same_data ∙ lock_data v,
                unlocked,
              )
        ]
      ]
