-- ===== src/Ui/State.antt =====
-- The members of src/ui/appcontroller.h, with the settings as `value` reads them.
use harbour_leyni.Prelude.{
  ℕ, ◌-◌, Bool, true, false, List, [], ◌∷◌, ◌++◌, Option, Bytes, String, length, take, CryptoError,
}
use harbour_leyni.Crypto.Kdf.Params.{KdfParams}
use harbour_leyni.Crypto.PinWrap.{PinWrappedKey}
use harbour_leyni.Vault.Json.{ℤ}
use harbour_leyni.Vault.Int.{mul_int}
use harbour_leyni.Vault.Qt.{Qt}
use harbour_leyni.Vault.Items.{Failure}
use harbour_leyni.Vault.State.{Vault, note_activity}
use harbour_leyni.Vault.ListModel.{ListModel, refresh}
use harbour_leyni.Vault.Stores.{File, Writing}
use harbour_leyni.Api.Types.{Message}
use harbour_leyni.Api.ServerConfig.{ServerConfig}
use harbour_leyni.Api.Client.{Request}

-- The page that is shown: "setup", "login", "twofactor", "locked", "unlocked".
pub data Page : Type 0 where
  setup login two_factor locked unlocked : Page

pub record Settings : Type 0 where
  pub server_url : Bytes
  pub email : Bytes
  pub device_id : Bytes
  pub refresh_token : Bytes
  pub kdf : KdfParams
  pub auto_lock_minutes : ℤ
  pub clipboard_seconds : ℤ
  pub lock_on_minimize : Bool
  pub pin_failures : ℕ

-- The text of an error or of a notice.
pub data Report : Type 0 where
  blank : Report
  words : String → Report
  api_error sync_failed : Message → Report
  crypto_error : CryptoError → Report
  vault_error : Failure → Report
  wrong_pin : ℕ → Report
  copied_for : ℤ → Report

pub record DerivedSecrets : Type 0 where
  pub master_key : Bytes
  pub password_hash : Bytes

-- The callback of a derivation, and what the worker was given.
pub data DeriveNext : Type 0 where
  then_login then_unlock : DeriveNext
  then_enable_pin : Bytes → DeriveNext

pub record DeriveRun : Type 0 where
  pub password : Bytes
  pub account_email : Bytes
  pub params : KdfParams
  pub next : DeriveNext

-- A secret to wrap under a PIN, or a blob to unwrap with one.
pub data PinRun : Type 0 where
  wrap : Bytes → Bytes → PinRun
  unwrap : PinWrappedKey → Bytes → PinRun

-- A `CipherWriteCall`.
pub data Write : Type 0 where
  create : Bytes → Write
  update : Bytes → Bytes → Write
  soft_delete : Bytes → Write

-- The callback of a request, with what it captures.
pub data Call : Type 0 where
  prelogin_call : Bytes → Call
  login_call two_factor_call email_code_call login_sync_call : Call
  refresh_call sync_call : Bool → Call
  write_call refresh_write_call retried_write_call : Write → String → Call
  write_sync_call : String → Call

-- `clipboard` is the system's. `calls` are the requests that wait for a reply, with their
-- callbacks; `derive` and `pin_work` are the workers that run. `crashed` tells that a null pointer
-- was read.
pub record App : Type 0 where
  pub settings : Settings
  pub config : ServerConfig
  pub vault : Vault
  pub model : ListModel
  pub sync_file : File
  pub pin_file : File
  pub page : Page
  pub busy : Bool
  pub last_error : Report
  pub two_factor_providers : List ℤ
  pub access_token : Bytes
  pub refresh_token : Bytes
  pub pending_hash : Bytes
  pub pending_secrets : Option DerivedSecrets
  pub clipboard : Bytes
  pub clipboard_expected : Bytes
  pub clipboard_timer : Bool
  pub derive : Option DeriveRun
  pub pin_work : Option PinRun
  pub calls : List (Call × Request)
  pub notices : List Report
  pub crashed : Bool

-- What a step meets: how the disk answers, the random bytes of a wrap, a new UUID in its braces,
-- and the time.
pub record World : Type 0 where
  pub sync_writing : Writing
  pub pin_writing : Writing
  pub sync_removed : Bool
  pub pin_removed : Bool
  pub random_salt : Option Bytes
  pub random_iv : Option Bytes
  pub uuid : Bytes
  pub unix_time : ℕ

abbrev pub set_page : Page → App → App
set_page page a = record a { page = page }

abbrev pub set_busy : Bool → App → App
set_busy busy a = record a { busy = busy }

abbrev pub set_error : Report → App → App
set_error text a = record a { last_error = text }

-- `emit notify(…)`, the latest first
abbrev pub notify : Report → App → App
notify text a = record a { notices = text ∷ a.notices }

abbrev pub await : Call → Request → App → App
await call request a = record a { calls = a.calls ++ (call, request) ∷ [] }

unfoldable pub refresh_model : Qt → App → App
refresh_model qt a = record a { model = refresh qt a.vault.items a.model }

-- "unlocked" ends when the vault locks.
unfoldable pub after_lock : Page → Page
after_lock unlocked = locked
after_lock page = page

-- The two slots of a `lockedChanged` signal, in the order in which they were connected. A vault
-- that locks has no items.
unfoldable pub hear : Qt → Bool → App → App
hear qt true a = record a { model = refresh qt [] a.model; page = after_lock a.page }
hear qt false a = refresh_model qt a

-- The signals, the latest first.
unfoldable pub hear_all : Qt → List Bool → App → App
hear_all qt [] a = a
hear_all qt (b ∷ before) a = hear qt b (hear_all qt before a)

-- A call of the vault, with the slots of the signals that it emitted.
unfoldable pub with_vault : Qt → Vault → App → App
with_vault qt v a =
    hear_all qt (take (length v.emitted - length a.vault.emitted) v.emitted)
      (record a { vault = v })

-- `noteActivity`, which emits nothing
unfoldable pub note : App → App
note a = record a { vault = note_activity a.vault }

-- The minutes in seconds, an `int`
unfoldable pub to_seconds : ℤ → ℤ
to_seconds minutes = mul_int minutes 60
