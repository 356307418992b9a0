-- ===== src/Api/Requests.antt =====
-- The bodies of src/api/apijson.cpp.
use harbour_leyni.Prelude.{◌+◌, not, List, [], ◌∷◌, ◌++◌, Bytes, codes, is_empty, if◌then◌else◌}
use harbour_leyni.Prelude.Decimal.{to_string}
use harbour_leyni.Vault.Json.{ℤ, pos, negsuc, string, end, insert_field}
use harbour_leyni.Vault.Qt.{Qt}
use harbour_leyni.Api.Types.{DeviceInfo, TwoFactorRequest}

-- The items of a `QUrlQuery`, in the order in which they were added.
abbrev pub Query : Type 0
Query = List (Bytes × Bytes)

-- `QString::number`
unfoldable pub number_text : ℤ → Bytes
number_text (pos n) = to_string n
number_text (negsuc n) = b'-' ∷ to_string (n + 1)

module _ (qt : Qt) where
  unfoldable pub form_field : Bytes → Bytes → Bytes × Bytes
  form_field key v = (qt.percent_encoding key, qt.percent_encoding v)

  unfoldable pub add_device_fields : DeviceInfo → Query → Query
  add_device_fields device query =
      query
      ++ form_field (codes "deviceType") (number_text device.type)
        ∷ form_field (codes "deviceIdentifier") device.identifier
        ∷ form_field (codes "deviceName") device.name
        ∷ []

  unfoldable pub email_text : Bytes → Bytes
  email_text email = qt.to_lower (qt.trimmed email)

  unfoldable pub build_prelogin_body : Bytes → Bytes
  build_prelogin_body email =
      qt.to_json (insert_field (codes "email") (string (email_text email)) end)

  unfoldable pub two_factor_fields : TwoFactorRequest → Query
  two_factor_fields two_factor = elim two_factor.provider [
    | negsuc n ↦ []
    | pos n ↦
        form_field (codes "twoFactorProvider") (number_text two_factor.provider)
        ∷ form_field (codes "twoFactorToken") two_factor.token
        ∷ form_field (codes "twoFactorRemember")
            (if two_factor.remember then codes "1" else codes "0")
        ∷ []
  ]

  unfoldable pub otp_fields : Bytes → Query
  otp_fields new_device_otp =
      if not (is_empty new_device_otp)
      then form_field (codes "newDeviceOtp") new_device_otp ∷ []
      else []

  unfoldable pub build_password_token_body :
      Bytes → Bytes → DeviceInfo → TwoFactorRequest → Bytes → Bytes
  build_password_token_body email master_password_hash device two_factor new_device_otp =
      let login =
        form_field (codes "grant_type") (codes "password")
        ∷ form_field (codes "username") (email_text email)
        ∷ form_field (codes "password") master_password_hash
        ∷ form_field (codes "scope") (codes "api offline_access")
        ∷ form_field (codes "client_id") (codes "cli")
        ∷ [] in
      qt.query (
        add_device_fields device login ++ two_factor_fields two_factor ++ otp_fields new_device_otp)

  unfoldable pub build_api_key_token_body : Bytes → Bytes → DeviceInfo → Bytes
  build_api_key_token_body client_id client_secret device =
      let login =
        form_field (codes "grant_type") (codes "client_credentials")
        ∷ form_field (codes "client_id") client_id
        ∷ form_field (codes "client_secret") client_secret
        ∷ form_field (codes "scope") (codes "api")
        ∷ [] in
      qt.query (add_device_fields device login)

  unfoldable pub build_refresh_token_body : Bytes → Bytes
  build_refresh_token_body refresh_token = qt.query (
      form_field (codes "grant_type") (codes "refresh_token")
      ∷ form_field (codes "client_id") (codes "cli")
      ∷ form_field (codes "refresh_token") refresh_token
      ∷ [])

  unfoldable pub build_send_email_login_body : Bytes → Bytes → Bytes → Bytes
  build_send_email_login_body email master_password_hash device_identifier =
      let with_email = insert_field (codes "email") (string (email_text email)) end in
      let with_hash =
        insert_field (codes "masterPasswordHash") (string master_password_hash) with_email in
      qt.to_json (insert_field (codes "deviceIdentifier") (string device_identifier) with_hash)

  unfoldable pub auth_email_header_value : Bytes → Bytes
  auth_email_header_value email = qt.base64_url (email_text email)
