-- ===== src/Vault/Session/Reachable.antt =====
-- The vaults that calls of src/vault/vault.h and timeouts of the auto-lock timer lead to.
use harbour_leyni.Prelude.{Bytes}
use harbour_leyni.Crypto.Primitives.{Primitives}
use harbour_leyni.Crypto.Kdf.Params.{KdfParams}
use harbour_leyni.Vault.Json.{ℤ, pos}
use harbour_leyni.Vault.Qt.{Qt}
use harbour_leyni.Vault.State.{
  Vault, new_vault, lock, set_auto_lock_seconds, note_activity, timeout,
}
use harbour_leyni.Vault.Session.{load_sync, unlock_with_master_key, unlock, reload_sync}
use harbour_leyni.Vault.Session.Invariant.{
  IsVault, new_vault-IsVault, lock-IsVault, timeout-IsVault, set_auto_lock_seconds-IsVault,
  note_activity-IsVault,
}
use harbour_leyni.Vault.Session.Preserve.{
  load_sync-IsVault, unlock_with_master_key-IsVault, unlock-IsVault,
}
use harbour_leyni.Vault.Session.Reload.{reload_sync-IsVault}
use harbour_leyni.Vault.Session.Timer.{
  Obeys, SameTimer-Obeys, new_vault-Obeys, set_auto_lock_seconds-Obeys,
}
use harbour_leyni.Vault.Session.Signals.{
  Emits, lock-Emits, timeout-Emits, load_sync-Emits, unlock_with_master_key-Emits, unlock-Emits,
  reload_sync-Emits, note_activity-Emits,
}

-- One call but that of `set_auto_lock_seconds`, whatever it answers; or the timeout of the timer.
pub data Step (p : Primitives) (qt : Qt) : Vault → Vault → Type 0 where
  loaded : (raw_json : Bytes) (v : Vault) → Step p qt v (load_sync qt raw_json v).0
  unlocked :
      (email password : Bytes) (kdf_params : KdfParams) (v : Vault)
      → Step p qt v (unlock p qt email password kdf_params v).0
  unlocked_with_key :
      (master_key : Bytes) (v : Vault) → Step p qt v (unlock_with_master_key p qt master_key v).0
  reloaded : (raw_json : Bytes) (v : Vault) → Step p qt v (reload_sync p qt raw_json v).0
  locked : (v : Vault) → Step p qt v (lock v)
  activity_noted : (v : Vault) → Step p qt v (note_activity v)
  timed_out : (v : Vault) → Step p qt v (timeout v)

-- The vaults, with the seconds that were set last.
pub data Reachable (p : Primitives) (qt : Qt) : ℤ → Vault → Type 0 where
  start : Reachable p qt (pos 0) new_vault
  next :
      (seconds : ℤ) (v w : Vault)
      → Reachable p qt seconds v
      → Step p qt v w
      → Reachable p qt seconds w
  auto_lock_set :
      (seconds before : ℤ) (v : Vault)
      → Reachable p qt before v
      → Reachable p qt seconds (set_auto_lock_seconds seconds v)

pub Step-IsVault : (p : Primitives) (qt : Qt) (v w : Vault) → Step p qt v w → IsVault v → IsVault w
Step-IsVault p qt v w (loaded raw_json u) h = load_sync-IsVault qt raw_json u h
Step-IsVault p qt v w (unlocked email password kdf_params u) h =
    unlock-IsVault p qt email password kdf_params u h
Step-IsVault p qt v w (unlocked_with_key master_key u) h =
    unlock_with_master_key-IsVault p qt master_key u h
Step-IsVault p qt v w (reloaded raw_json u) h = reload_sync-IsVault p qt raw_json u h
Step-IsVault p qt v w (locked u) h = lock-IsVault u h.signals
Step-IsVault p qt v w (activity_noted u) h = note_activity-IsVault u h
Step-IsVault p qt v w (timed_out u) h = timeout-IsVault u h

Step-Emits : (p : Primitives) (qt : Qt) (v w : Vault) → Step p qt v w → Emits v w
Step-Emits p qt v w (loaded raw_json u) = load_sync-Emits qt raw_json u
Step-Emits p qt v w (unlocked email password kdf_params u) =
    unlock-Emits p qt email password kdf_params u
Step-Emits p qt v w (unlocked_with_key master_key u) =
    unlock_with_master_key-Emits p qt master_key u
Step-Emits p qt v w (reloaded raw_json u) = reload_sync-Emits p qt raw_json u
Step-Emits p qt v w (locked u) = lock-Emits u
Step-Emits p qt v w (activity_noted u) = note_activity-Emits u
Step-Emits p qt v w (timed_out u) = timeout-Emits u

-- After any sequence of calls and timeouts, from a new vault: a locked vault holds no key, no item
-- and no folder name, and its timer is stopped; an unlocked one has well-sized keys; the interval of
-- the timer is 1000 times the seconds that were set last, as a 32-bit `int` that wraps around, and 0
-- if they are not above 0; the timer runs only if they are above 0, and in an unlocked vault it runs
-- if the interval is above 0 and does not if it is negative; and the signals have told each change
-- of the lock once.
pub Reachable-IsVault :
    (p : Primitives) (qt : Qt) (seconds : ℤ) (v : Vault)
    → Reachable p qt seconds v
    → IsVault v × Obeys seconds v
Reachable-IsVault p qt _ _ start = (new_vault-IsVault, new_vault-Obeys)
Reachable-IsVault p qt _ _ (next seconds u w before step) =
    let (sound, obeys) = Reachable-IsVault p qt seconds u before in
    let (news, told, timer) = Step-Emits p qt u w step in
    (Step-IsVault p qt u w step sound, SameTimer-Obeys seconds u w obeys timer)
Reachable-IsVault p qt _ _ (auto_lock_set seconds before u was) =
    let (sound, obeys) = Reachable-IsVault p qt before u was in
    (set_auto_lock_seconds-IsVault seconds u sound, set_auto_lock_seconds-Obeys seconds u)
