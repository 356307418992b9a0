-- ===== src/Vault/State.antt =====
-- src/vault/vault.h: what a vault keeps, and the operations that read no key: `lock` and the
-- auto-lock timer.
use harbour_leyni.Prelude.{Bool, true, false, ◌&&◌, not, List, [], ◌∷◌, Bytes, if◌then◌else◌}
use harbour_leyni.Crypto.Keys.{SymmetricKey}
use harbour_leyni.Vault.Json.{ℤ, pos, negsuc}
use harbour_leyni.Vault.Int.{mul_int, is_positive}
use harbour_leyni.Vault.Items.{SyncData, DecryptedItem}

abbrev pub no_key : SymmetricKey
no_key = record { enc_key = []; mac_key = [] }

abbrev pub no_data : SyncData
no_data = record {
  profile_email = [];
  profile_key = [];
  profile_private_key = [];
  organizations = [];
  ciphers = [];
  folders = [];
  collections = [];
}

-- `timer_interval` and `timer_active` are the state of the auto-lock timer; `emitted` holds the
-- arguments of the `lockedChanged` signals, the latest first.
pub record Vault : Type 0 where
  pub sync_data : SyncData
  pub locked : Bool
  pub user_key : SymmetricKey
  pub private_key_der : Bytes
  pub org_keys : List (Bytes × SymmetricKey)
  pub items : List DecryptedItem
  pub folder_names : List (Bytes × Bytes)
  pub timer_interval : ℤ
  pub timer_active : Bool
  pub emitted : List Bool

-- The members before any call.
abbrev pub new_vault : Vault
new_vault = record {
  sync_data = no_data;
  locked = true;
  user_key = no_key;
  private_key_der = [];
  org_keys = [];
  items = [];
  folder_names = [];
  timer_interval = pos 0;
  timer_active = false;
  emitted = [];
}

unfoldable pub lock : Vault → Vault
lock v = record v {
  locked = true;
  user_key = no_key;
  private_key_der = [];
  org_keys = [];
  items = [];
  folder_names = [];
  timer_active = false;
  emitted = if v.locked then v.emitted else true ∷ v.emitted;
}

-- Qt starts no timer with a negative interval.
abbrev pub can_start : ℤ → Bool
can_start (pos n) = true
can_start (negsuc n) = false

unfoldable pub set_auto_lock_seconds : ℤ → Vault → Vault
set_auto_lock_seconds seconds v =
    if is_positive seconds
    then record v {
      timer_interval = mul_int seconds 1000;
      timer_active = if v.locked then v.timer_active else can_start (mul_int seconds 1000);
    }
    else record v { timer_interval = pos 0; timer_active = false }

-- `start()` of a timer that runs restarts it.
unfoldable pub note_activity : Vault → Vault
note_activity v =
    if not v.locked && is_positive v.timer_interval then record v { timer_active = true } else v

-- The timeout of the timer, which is single-shot and connected to `lock`.
unfoldable pub timeout : Vault → Vault
timeout v = if v.timer_active then lock v else v
