-- ===== src/Api/Client.antt =====
-- src/api/apiclient.{h,cpp}: what each call of the client asks for, and what its callback gets.
-- `Qt` sends the request; the reply that has finished is a value. A request that is aborted after
-- `request_timeout_ms` finishes as canceled.
use harbour_leyni.Prelude.{
  ℕ, ltb, leb, ◌==◌, not, Bool, true, ◌||◌, List, [], ◌∷◌, ◌++◌, Bytes, codes, is_empty, String,
  Option, none, some, if◌then◌else◌,
}
use harbour_leyni.Crypto.Kdf.Params.{KdfType, KdfParams}
use harbour_leyni.Vault.Json.{pos}
use harbour_leyni.Vault.Qt.{Qt}
use harbour_leyni.Api.Types.{
  DeviceInfo, TwoFactorRequest, TokenResponse, Message, says, told, http, ApiError, no_error,
  Outcome,
}
use harbour_leyni.Api.ServerConfig.{
  ServerConfig, prelogin_url, token_url, sync_url, send_email_login_url, ciphers_url, cipher_url,
}
use harbour_leyni.Api.Requests.{
  build_prelogin_body, build_password_token_body, build_api_key_token_body,
  build_refresh_token_body, build_send_email_login_body, auth_email_header_value,
}
use harbour_leyni.Api.Responses.{
  Parsed, accepted, refused, parse_prelogin_response, parse_token_response, parse_token_error,
}

-- `QNetworkReply::error`, with the text of an error of another kind.
pub data NetworkError : Type 0 where
  canceled : NetworkError
  broken : Bytes → NetworkError

-- `none` is `NoError`, and a status of 0 is no status.
pub record Reply : Type 0 where
  pub failed : Option NetworkError
  pub http_status : ℕ
  pub body : Bytes

pub data Verb : Type 0 where
  get_verb post_verb put_verb : Verb

-- The headers are those that the client sets.
pub record Request : Type 0 where
  pub verb : Verb
  pub url : Bytes
  pub headers : List (String × Bytes)
  pub body : Bytes

abbrev pub request_timeout_ms : ℕ
request_timeout_ms = 30000

unfoldable pub transport_error : NetworkError → ApiError
transport_error canceled = record no_error {
  network_error = true;
  message = says "request timed out";
}
transport_error (broken text) = record no_error { network_error = true; message = told text }

-- The error of a reply that has a network error and no status.
unfoldable pub transport_failure : Option NetworkError → ℕ → Option ApiError
transport_failure none status = none
transport_failure (some e) status = if status == 0 then some (transport_error e) else none

abbrev pub fails_with {ℓ} : {A : Type ℓ} → A → ApiError → Outcome A
fails_with default e = record { value = default; error = e }

abbrev pub status_error : ℕ → Message → ApiError
status_error status m = record no_error { http_status = status; message = m }

-- `!parse…(body, &result.value, &message)` and its branch
unfoldable pub parsed_outcome {ℓ} : {A : Type ℓ} → A → ℕ → Parsed A → Outcome A
parsed_outcome default status (accepted v) = record { value = v; error = no_error }
parsed_outcome default status (refused m) = fails_with default (status_error status m)

abbrev pub is_200 : ℕ → Bool
is_200 status = status == 200

abbrev pub is_2xx : ℕ → Bool
is_2xx status = not (ltb status 200 || leb 300 status)

-- The members of a struct before they are set.
abbrev pub no_params : KdfParams
no_params = record { type = KdfType.pbkdf2_sha256; iterations = 0; memory_mib = 0; parallelism = 0 }

abbrev pub no_tokens : TokenResponse
no_tokens = record {
  access_token = [];
  refresh_token = [];
  expires_in_seconds = pos 0;
  key = [];
  private_key = [];
  two_factor_remember_token = [];
}

unfoldable pub finished_prelogin : Qt → Reply → Outcome KdfParams
finished_prelogin qt reply = elim (transport_failure reply.failed reply.http_status) [
  | some e ↦ fails_with no_params e
  | none ↦
      if not (is_200 reply.http_status)
      then fails_with no_params
          (status_error reply.http_status (http "prelogin failed" reply.http_status))
      else parsed_outcome no_params reply.http_status (parse_prelogin_response qt reply.body)
]

unfoldable pub finished_token : Qt → Reply → Outcome TokenResponse
finished_token qt reply = elim (transport_failure reply.failed reply.http_status) [
  | some e ↦ fails_with no_tokens e
  | none ↦
      if not (is_200 reply.http_status)
      then fails_with no_tokens (parse_token_error qt reply.http_status reply.body)
      else parsed_outcome no_tokens reply.http_status (parse_token_response qt reply.body)
]

-- The callback of a call that wants the body as it is.
unfoldable pub finished_body : (ℕ → Bool) → String → Reply → Outcome Bytes
finished_body is_good failure reply = elim (transport_failure reply.failed reply.http_status) [
  | some e ↦ fails_with [] e
  | none ↦
      if not (is_good reply.http_status)
      then fails_with [] (status_error reply.http_status (http failure reply.http_status))
      else record { value = reply.body; error = no_error }
]

unfoldable pub finished_send_email_login : Reply → Outcome Bytes
finished_send_email_login = finished_body is_2xx "send-email-login failed"

unfoldable pub finished_sync : Reply → Outcome Bytes
finished_sync = finished_body is_200 "sync failed"

-- The name of the operation is in front of "failed".
unfoldable pub finished_authed : String → Reply → Outcome Bytes
finished_authed = finished_body is_2xx

module _ (qt : Qt) (config : ServerConfig) where
  unfoldable pub post : Bytes → Bytes → String → Bytes → Request
  post url body content_type auth_email =
      let common =
        ("Content-Type", codes content_type) ∷ ("Accept", codes "application/json") ∷ [] in
      record {
        verb = post_verb;
        url = url;
        headers =
            if not (is_empty auth_email) then common ++ ("Auth-Email", auth_email) ∷ [] else common;
        body = body;
      }

  unfoldable pub prelogin : Bytes → Request
  prelogin email = post (prelogin_url config) (build_prelogin_body qt email) "application/json" []

  unfoldable pub post_token : Bytes → Bytes → Request
  post_token body auth_email =
      post (token_url config) body "application/x-www-form-urlencoded"
        (if is_empty auth_email then [] else auth_email_header_value qt auth_email)

  unfoldable pub login_password : Bytes → Bytes → DeviceInfo → TwoFactorRequest → Bytes → Request
  login_password email master_password_hash device two_factor new_device_otp =
      post_token
        (build_password_token_body qt email master_password_hash device two_factor new_device_otp)
        email

  unfoldable pub login_api_key : Bytes → Bytes → DeviceInfo → Request
  login_api_key client_id client_secret device =
      post_token (build_api_key_token_body qt client_id client_secret device) []

  unfoldable pub refresh_token : Bytes → Request
  refresh_token token = post_token (build_refresh_token_body qt token) []

  unfoldable pub send_email_login_code : Bytes → Bytes → Bytes → Request
  send_email_login_code email master_password_hash device_identifier =
      post (send_email_login_url config)
        (build_send_email_login_body qt email master_password_hash device_identifier)
        "application/json" (auth_email_header_value qt email)

unfoldable pub bearer : Bytes → List (String × Bytes)
bearer access_token =
    ("Accept", codes "application/json") ∷ ("Authorization", codes "Bearer " ++ access_token) ∷ []

-- The verb is "PUT" or "POST".
unfoldable pub send_authed : Bytes → Verb → Bytes → Bytes → Request
send_authed url verb access_token body = record {
  verb = verb;
  url = url;
  headers =
      if not (is_empty body)
      then bearer access_token ++ ("Content-Type", codes "application/json") ∷ []
      else bearer access_token;
  body = body;
}

module _ (config : ServerConfig) where
  unfoldable pub sync : Bytes → Request
  sync access_token = record {
    verb = get_verb;
    url = sync_url config;
    headers = bearer access_token;
    body = [];
  }

  unfoldable pub create_cipher : Bytes → Bytes → Request
  create_cipher access_token body = send_authed (ciphers_url config) post_verb access_token body

  unfoldable pub update_cipher : Bytes → Bytes → Bytes → Request
  update_cipher access_token id body = send_authed (cipher_url config id) put_verb access_token body

  unfoldable pub soft_delete_cipher : Bytes → Bytes → Request
  soft_delete_cipher access_token id =
      send_authed (cipher_url config id ++ codes "/delete") put_verb access_token []
