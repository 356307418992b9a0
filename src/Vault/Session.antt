-- ===== src/Vault/Session.antt =====
-- src/vault/vault.cpp: loading a sync, unlocking, re-syncing. A call that returns `false` is a
-- `failure` with the error message, next to the vault as the call leaves it.
pub mod Invariant
pub mod Preserve
pub mod Timer
pub mod Signals
pub mod Reload
pub mod Reachable
pub mod Unlock
use harbour_leyni.Prelude.{
  ℕ, zero, suc, ◌+◌, ltb, Bool, true, false, not, List, [], ◌∷◌, Bytes, bytes_equal, is_empty,
  if◌then◌else◌, Result, err, ok, ◌>>=◌,
}
use harbour_leyni.Crypto.Primitives.{Primitives}
use harbour_leyni.Crypto.Kdf.Params.{KdfParams}
use harbour_leyni.Crypto.Kdf.{derive_master_key}
use harbour_leyni.Crypto.Keys.{SymmetricKey, stretch_master_key, symmetric_key_from_bytes}
use harbour_leyni.Vault.Json.{ℤ}
use harbour_leyni.Vault.Qt.{Qt}
use harbour_leyni.Vault.Items.{SyncData, because, thrown, Answer, answer, failure}
use harbour_leyni.Vault.SyncParser.{parse_sync_json}
use harbour_leyni.Vault.Int.{is_positive}
use harbour_leyni.Vault.State.{Vault, lock}
use harbour_leyni.Vault.Access.{decrypt_bytes}
use harbour_leyni.Vault.Display.{rebuild_display_data}

-- The number of skipped ciphers, with an accepted response.
unfoldable pub load_sync : Qt → Bytes → Vault → Vault × Answer ℕ
load_sync qt raw_json v = elim (parse_sync_json qt raw_json) [
  | failure f ↦ (v, failure f)
  | answer parsed ↦ (record (lock v) { sync_data = parsed.0 }, answer parsed.1)
]

-- The last lines of `unlockWithMasterKey`.
unfoldable pub open_vault : Vault → Vault
open_vault v = record v {
  locked = false;
  timer_active = if is_positive v.timer_interval then true else v.timer_active;
  emitted = false ∷ v.emitted;
}

module _ (p : Primitives) where
  -- The inner `try` and the rest of the outer one.
  unfoldable pub build_user_key : Qt → Vault → Bytes → Result Vault
  build_user_key qt v user_key_raw = do
    user_key ← symmetric_key_from_bytes user_key_raw
    rebuild_display_data p qt (record v { user_key = user_key })

  unfoldable pub unlock_stretched : Qt → SymmetricKey → Vault → Vault × Answer (Unit {0})
  unlock_stretched qt stretched v = elim (decrypt_bytes p v.sync_data.profile_key stretched) [
    | err e ↦ (v, failure (because "wrong master password"))
    | ok user_key_raw ↦ elim (build_user_key qt v user_key_raw) [
      | err e ↦ (lock v, failure (thrown "unlock failed: %1" e))
      | ok built ↦ (open_vault built, answer tt)
    ]
  ]

  unfoldable pub unlock_with_master_key : Qt → Bytes → Vault → Vault × Answer (Unit {0})
  unlock_with_master_key qt master_key v =
      if is_empty v.sync_data.profile_key
      then (v, failure (because "no vault data loaded"))
      else elim (stretch_master_key p master_key) [
        | err e ↦ (lock (lock v), failure (thrown "unlock failed: %1" e))
        | ok stretched ↦ unlock_stretched qt stretched (lock v)
      ]

  unfoldable pub unlock : Qt → Bytes → Bytes → KdfParams → Vault → Vault × Answer (Unit {0})
  unlock qt email password kdf_params v =
      let email_lower = qt.to_lower (qt.trimmed email) in
      elim (derive_master_key p password email_lower kdf_params) [
        | err e ↦ (v, failure (thrown "unlock failed: %1" e))
        | ok master_key ↦ unlock_with_master_key qt master_key v
      ]

  unfoldable pub verify_master_key : Bytes → Vault → Answer (Unit {0})
  verify_master_key master_key v =
      if is_empty v.sync_data.profile_key
      then failure (because "no vault data loaded")
      else elim (stretch_master_key p master_key >>= decrypt_bytes p v.sync_data.profile_key) [
        | err e ↦ failure (because "wrong master password")
        | ok dropped ↦ answer tt
      ]

  -- New data under the user key in memory.
  unfoldable pub replace_data : Qt → SyncData → Vault → Result Vault
  replace_data qt fresh v =
      rebuild_display_data p qt
        (record v { sync_data = fresh; org_keys = []; items = []; folder_names = [] })

  -- With the data of an accepted response: if the protected key of the account has changed, the
  -- vault locks.
  unfoldable pub reload_fresh : Qt → SyncData → ℕ → Vault → Vault × Answer ℕ
  reload_fresh qt fresh skipped v =
      if not (bytes_equal fresh.profile_key v.sync_data.profile_key)
      then (lock v, failure (because "account keys changed — please unlock again"))
      else elim (replace_data qt fresh v) [
        | err e ↦ (lock (record v { sync_data = fresh }), failure (thrown "re-sync failed: %1" e))
        | ok replaced ↦ (replaced, answer skipped)
      ]

  unfoldable pub reload_sync : Qt → Bytes → Vault → Vault × Answer ℕ
  reload_sync qt raw_json v =
      if v.locked
      then (v, failure (because "vault is locked"))
      else elim (parse_sync_json qt raw_json) [
        | failure f ↦ (v, failure f)
        | answer parsed ↦ reload_fresh qt parsed.0 parsed.1 v
      ]
