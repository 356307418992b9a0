-- ===== src/Ui/Pin.antt =====
-- src/ui/appcontroller.cpp: the PIN. The budget of wrong PINs is in the settings, which outlive a run.
use harbour_leyni.Prelude.{
  ℕ, ◌+◌, ◌==◌, ltb, leb, true, false, not, none, some, Bytes, if◌then◌else◌, Result, err, ok,
  ◌>>=◌,
}
use harbour_leyni.Crypto.Primitives.{Primitives}
use harbour_leyni.Crypto.PinWrap.{serialize, parse, wrap_with_pin}
use harbour_leyni.Vault.Qt.{Qt}
use harbour_leyni.Vault.Items.{answer, failure}
use harbour_leyni.Vault.Session.{unlock_with_master_key, verify_master_key}
use harbour_leyni.Vault.Stores.{save, load, exists}
use harbour_leyni.Ui.State.{
  unlocked, App, World, blank, words, crypto_error, wrong_pin, DerivedSecrets, then_enable_pin,
  PinRun, wrap, unwrap, set_page, set_busy, set_error, notify, refresh_model, with_vault,
}
use harbour_leyni.Ui.Account.{forget_pin}
use harbour_leyni.Ui.Session.{derive_async}

abbrev pub max_pin_failures : ℕ
max_pin_failures = 3

abbrev pub min_pin_length : ℕ
min_pin_length = 4

unfoldable pub set_pin_failures : ℕ → App → App
set_pin_failures count a = record a { settings = record a.settings { pin_failures = count } }

unfoldable pub run_pin_worker : PinRun → App → App
run_pin_worker work a = elim a.pin_work [
  | some run ↦ set_error (words "another operation is in progress") a
  | none ↦ record a { pin_work = some work }
]

unfoldable pub enable_pin : Qt → Bytes → Bytes → App → App
enable_pin qt master_password pin a =
    let running =
      derive_async master_password a.settings.kdf (then_enable_pin pin)
        (set_busy true (set_error blank a)) in
    if ltb (qt.size pin) min_pin_length
    then notify (words "PIN must be at least 4 digits") a
    else if not (exists a.sync_file)
    then notify (words "No vault — sign in first") a
    else if a.settings.kdf.iterations == 0
    then notify (words "Missing KDF parameters — sign in again") a
    else running

unfoldable pub derived_to_enable_pin : Primitives → Bytes → Result DerivedSecrets → App → App
derived_to_enable_pin p pin (err e) a = notify (crypto_error e) (set_busy false a)
derived_to_enable_pin p pin (ok secrets) a = elim (verify_master_key p secrets.master_key a.vault) [
  | failure f ↦ notify (words "Wrong master password — PIN not enabled") (set_busy false a)
  | answer done ↦ run_pin_worker (wrap secrets.master_key pin) a
]

-- What the worker makes of a secret: the blob.
unfoldable pub wrapped_blob : Primitives → World → Bytes → Bytes → Result Bytes
wrapped_blob p w secret pin = do
  wrapped ← wrap_with_pin p w.random_salt w.random_iv secret pin
  ok (serialize wrapped)

unfoldable pub store_pin : World → Bytes → App → App
store_pin w blob a =
    let (file, saved) = save w.pin_writing blob a.pin_file in
    if not saved
    then notify (words "Could not store PIN") (record a { pin_file = file })
    else notify (words "PIN unlock enabled") (set_pin_failures 0 (record a { pin_file = file }))

unfoldable pub pin_wrapped : World → Result Bytes → App → App
pin_wrapped w (err e) a = notify (crypto_error e) (set_busy false a)
pin_wrapped w (ok blob) a = store_pin w blob (set_busy false a)

unfoldable pub disable_pin : World → App → App
disable_pin w a = notify (words "PIN unlock disabled") (forget_pin w a)

unfoldable pub unlock_with_pin : World → Bytes → App → App
unlock_with_pin w pin a =
    let unwrapping : App = elim (parse (load a.pin_file)) [
      | err e ↦ set_error (words "PIN data unreadable — use your master password") (forget_pin w a)
      | ok wrapped ↦ run_pin_worker (unwrap wrapped pin) (set_busy true (set_error blank a))
    ] in
    if not (exists a.pin_file)
    then set_error (words "PIN not set up") a
    else if not (exists a.sync_file)
    then set_error (words "no local vault — sign in first") a
    else unwrapping

unfoldable pub count_wrong_pin : World → App → App
count_wrong_pin w a =
    let failures = a.settings.pin_failures + 1 in
    if leb max_pin_failures failures
    then set_error (words "Too many wrong PINs — unlock with your master password") (forget_pin w a)
    else set_error (wrong_pin failures) (set_pin_failures failures a)

unfoldable pub unlock_with_pin_key : Primitives → Qt → World → Bytes → App → App
unlock_with_pin_key p qt w master_key a =
    let (v, result) = unlock_with_master_key p qt master_key a.vault in
    elim result [
      | answer done ↦ set_page unlocked (refresh_model qt (set_pin_failures 0 (with_vault qt v a)))
      | failure f ↦
          set_error (words "Vault key changed — unlock with your master password")
            (forget_pin w (with_vault qt v a))
    ]

unfoldable pub pin_unwrapped : Primitives → Qt → World → Result Bytes → App → App
pin_unwrapped p qt w (err e) a = count_wrong_pin w (set_busy false a)
pin_unwrapped p qt w (ok master_key) a = unlock_with_pin_key p qt w master_key (set_busy false a)
