-- ===== src/Api/Types.antt =====
-- The structures of src/api/apijson.h and `Result` of src/api/apiclient.h.
use harbour_leyni.Prelude.{ℕ, Bool, false, ◌&&◌, ◌==◌, not, String, List, [], Bytes}
use harbour_leyni.Vault.Json.{ℤ, negsuc}

pub record DeviceInfo : Type 0 where
  pub identifier : Bytes
  pub name : Bytes
  pub type : ℤ

-- A provider of -1 is none.
pub record TwoFactorRequest : Type 0 where
  pub provider : ℤ
  pub token : Bytes
  pub remember : Bool

abbrev pub no_two_factor : TwoFactorRequest
no_two_factor = record { provider = negsuc 0; token = []; remember = false }

pub record TokenResponse : Type 0 where
  pub access_token : Bytes
  pub refresh_token : Bytes
  pub expires_in_seconds : ℤ
  pub key : Bytes
  pub private_key : Bytes
  pub two_factor_remember_token : Bytes

-- An error message: a text of the code, the server's or Qt's text, or a text with "HTTP" and the
-- status, after the words in front of it.
pub data Message : Type 0 where
  blank : Message
  says : String → Message
  told : Bytes → Message
  http : String → ℕ → Message
  unknown_kdf : ℤ → Message

pub record ApiError : Type 0 where
  pub http_status : ℕ
  pub message : Message
  pub network_error : Bool
  pub two_factor_required : Bool
  pub two_factor_providers : List ℤ
  pub captcha_required : Bool
  pub new_device_verification_required : Bool

abbrev pub no_error : ApiError
no_error = record {
  http_status = 0;
  message = blank;
  network_error = false;
  two_factor_required = false;
  two_factor_providers = [];
  captcha_required = false;
  new_device_verification_required = false;
}

-- `isEmpty`
abbrev pub is_no_error : ApiError → Bool
is_no_error e = e.http_status == 0 && not e.network_error

-- `ok` asks the error, whatever the value is.
pub record Outcome {ℓ} (A : Type ℓ) : Type ℓ where
  pub value : A
  pub error : ApiError

abbrev pub is_ok {ℓ} : {A : Type ℓ} → Outcome A → Bool
is_ok result = is_no_error result.error
