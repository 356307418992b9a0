-- ===== src/Ui/Login.antt =====
-- src/ui/appcontroller.cpp: signing in, with the code of a second factor.
use harbour_leyni.Prelude.{
  Bool, true, false, ◌||◌, not, [], none, some, Bytes, is_empty, if◌then◌else◌, Result, err, ok,
}
use harbour_leyni.Crypto.Primitives.{Primitives}
use harbour_leyni.Crypto.Kdf.Params.{KdfParams}
use harbour_leyni.Vault.Json.{ℤ}
use harbour_leyni.Vault.Qt.{Qt}
use harbour_leyni.Api.Types.{
  TwoFactorRequest, no_two_factor, TokenResponse, ApiError, Outcome, is_ok,
}
use harbour_leyni.Api.Client.{prelogin, login_password, send_email_login_code, sync}
use harbour_leyni.Ui.State.{
  login, two_factor, App, World, blank, words, api_error, sync_failed, crypto_error, DerivedSecrets,
  then_login, prelogin_call, login_call, two_factor_call, email_code_call, login_sync_call,
  set_page, set_busy, set_error, notify, await,
}
use harbour_leyni.Ui.Account.{device_info}
use harbour_leyni.Ui.Session.{derive_async, apply_sync_blob}

unfoldable pub finish_login : TokenResponse → App → App
finish_login token a = await login_sync_call (sync a.config token.access_token) (record a {
  access_token = token.access_token;
  refresh_token = token.refresh_token;
  settings = record a.settings { refresh_token = token.refresh_token };
  pending_hash = [];
  two_factor_providers = [];
})

-- `m_pendingSecrets->passwordHashB64`, and the pointer may be null.
unfoldable pub ask_two_factor : ApiError → App → App
ask_two_factor e a = elim a.pending_secrets [
  | none ↦ record a { crashed = true }
  | some secrets ↦ set_page two_factor (record a {
    pending_hash = secrets.password_hash;
    two_factor_providers = e.two_factor_providers;
    busy = false;
  })
]

unfoldable pub login_answered : Outcome TokenResponse → App → App
login_answered result a =
    let asked = ask_two_factor result.error a in
    if is_ok result
    then finish_login result.value a
    else if result.error.two_factor_required
    then asked
    else record a {
      pending_secrets = none;
      busy = false;
      last_error = api_error result.error.message;
    }

unfoldable pub two_factor_answered : Outcome TokenResponse → App → App
two_factor_answered result a =
    if is_ok result
    then finish_login result.value a
    else set_error (api_error result.error.message) (set_busy false a)

unfoldable pub email_code_answered : Outcome Bytes → App → App
email_code_answered result a =
    if is_ok result
    then notify (words "Code sent — check your email") a
    else set_error (api_error result.error.message) a

unfoldable pub cancel_login : App → App
cancel_login a = record a {
  pending_secrets = none;
  pending_hash = [];
  two_factor_providers = [];
  busy = false;
  page = login;
}

unfoldable pub prelogin_done : Bytes → Outcome KdfParams → App → App
prelogin_done password result a =
    let stored = record a { settings = record a.settings { kdf = result.value } } in
    if not (is_ok result)
    then set_error (api_error result.error.message) (set_busy false a)
    else derive_async password result.value then_login stored

module _ (qt : Qt) where
  unfoldable pub start_login : Bytes → App → App
  start_login password a =
      if is_empty a.settings.email
      then set_error (words "no account configured") a
      else await (prelogin_call password) (prelogin qt a.config a.settings.email)
          (set_busy true (set_error blank a))

  unfoldable pub derived_to_login : World → Result DerivedSecrets → App → App
  derived_to_login w (err e) a = set_error (crypto_error e) (set_busy false a)
  derived_to_login w (ok secrets) a =
      let (b, device) = device_info w (record a { pending_secrets = some secrets }) in
      await login_call
        (login_password qt b.config b.settings.email secrets.password_hash device no_two_factor [])
        b

  unfoldable pub submit_two_factor : World → ℤ → Bytes → Bool → App → App
  submit_two_factor w provider code remember a =
      let (b, device) = device_info w (set_busy true (set_error blank a)) in
      let asked : TwoFactorRequest = record {
        provider = provider;
        token = qt.trimmed code;
        remember = remember;
      } in
      let no_secrets : Bool = elim a.pending_secrets [ none ↦ true | some secrets ↦ false ] in
      if no_secrets || is_empty a.pending_hash
      then set_error (words "no login in progress") a
      else await two_factor_call
          (login_password qt b.config b.settings.email b.pending_hash device asked []) b

  unfoldable pub request_email_code : World → App → App
  request_email_code w a =
      let (b, device) = device_info w a in
      if is_empty a.pending_hash
      then set_error (words "no login in progress") a
      else await email_code_call
          (send_email_login_code qt b.config b.settings.email b.pending_hash device.identifier) b

unfoldable pub login_synced : Primitives → Qt → World → Outcome Bytes → App → App
login_synced p qt w result a =
    let applied = apply_sync_blob p qt w result.value true a in
    if not (is_ok result)
    then record a {
      pending_secrets = none;
      busy = false;
      last_error = sync_failed result.error.message;
      page = login;
    }
    else applied
