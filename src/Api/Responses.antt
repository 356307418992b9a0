-- ===== src/Api/Responses.antt =====
-- The readers of src/api/apijson.cpp.
use harbour_leyni.Prelude.{
  ℕ, zero, suc, ◌-◌, ◌^◌, Bool, true, ◌||◌, ◌&&◌, not, List, [], ◌∷◌, Option, none, some, Bytes,
  codes, is_empty, if◌then◌else◌,
}
use harbour_leyni.Crypto.Kdf.Params.{KdfType, KdfParams}
use harbour_leyni.Vault.Json.{
  ℤ, pos, negsuc, Json, number, string, array, object, Fields, contains, value, to_string, to_int,
  to_int_or, items,
}
use harbour_leyni.Vault.Qt.{Qt}
use harbour_leyni.Vault.SyncParser.{value_of}
use harbour_leyni.Api.Types.{
  TokenResponse, Message, says, told, http, unknown_kdf, ApiError, no_error,
}

-- A value, or `false` with the error message.
pub data Parsed {ℓ} (A : Type ℓ) : Type ℓ where
  accepted : A → Parsed A
  refused : Message → Parsed A

-- `static_cast<uint32_t>` of an `int`
unfoldable pub as_word : ℤ → ℕ
as_word (pos n) = n
as_word (negsuc n) = 2 ^ 32 - 1 - n

-- The object of a text that is JSON, if it is one.
unfoldable pub object_of : Qt → Bytes → Option Fields
object_of qt body = elim (qt.from_json body) [
  | none ↦ none
  | some doc ↦ elim doc [ object obj ↦ some obj | _ ↦ none ]
]

unfoldable pub kdf_type : ℤ → Option KdfType
kdf_type (pos zero) = some KdfType.pbkdf2_sha256
kdf_type (pos (suc zero)) = some KdfType.argon2id
kdf_type _ = none

unfoldable pub prelogin_params : Fields → Parsed KdfParams
prelogin_params obj =
    let type = to_int_or (negsuc 0) (value_of obj (codes "kdf")) in
    elim (kdf_type type) [
      | none ↦ refused (unknown_kdf type)
      | some known ↦ accepted (record {
        type = known;
        iterations = as_word (to_int (value_of obj (codes "kdfIterations")));
        memory_mib = as_word (to_int (value_of obj (codes "kdfMemory")));
        parallelism = as_word (to_int (value_of obj (codes "kdfParallelism")));
      })
    ]

unfoldable pub parse_prelogin_response : Qt → Bytes → Parsed KdfParams
parse_prelogin_response qt body = elim (object_of qt body) [
  | none ↦ refused (says "prelogin: invalid JSON")
  | some obj ↦ prelogin_params obj
]

unfoldable pub token_fields : Fields → Parsed TokenResponse
token_fields obj =
    if is_empty (to_string (value obj (codes "access_token")))
    then refused (says "token: missing access_token")
    else accepted (record {
      access_token = to_string (value obj (codes "access_token"));
      refresh_token = to_string (value obj (codes "refresh_token"));
      expires_in_seconds = to_int (value obj (codes "expires_in"));
      key = to_string (value_of obj (codes "key"));
      private_key = to_string (value_of obj (codes "privateKey"));
      two_factor_remember_token = to_string (value_of obj (codes "twoFactorToken"));
    })

unfoldable pub parse_token_response : Qt → Bytes → Parsed TokenResponse
parse_token_response qt body = elim (object_of qt body) [
  | none ↦ refused (says "token: invalid JSON")
  | some obj ↦ token_fields obj
]

-- The id of a provider: a number from 0 on, or a text that is a number.
unfoldable pub provider_id : Qt → Json → Option ℤ
provider_id qt (string s) = qt.text_to_int s
provider_id qt (number (pos n)) = some (pos n)
provider_id qt _ = none

unfoldable pub provider_ids : Qt → List Json → List ℤ
provider_ids qt [] = []
provider_ids qt (v ∷ vs) =
    let rest = provider_ids qt vs in elim (provider_id qt v) [ none ↦ rest | some id ↦ id ∷ rest ]

unfoldable pub with_providers : Qt → Json → ApiError → ApiError
with_providers qt (array vs) e = record e {
  two_factor_required = true;
  two_factor_providers = provider_ids qt (items vs);
}
with_providers qt _ e = e

-- The message of the `errorModel`, if there is one.
unfoldable pub model_message : Json → Bytes
model_message (object model) = to_string (value_of model (codes "message"))
model_message _ = []

unfoldable pub description_of : Fields → Bytes
description_of obj =
    let model = model_message (value_of obj (codes "errorModel")) in
    let described = to_string (value obj (codes "error_description")) in
    if not (is_empty model)
    then model
    else if not (is_empty described)
    then described
    else to_string (value obj (codes "error"))

unfoldable pub message_of : ℕ → Bytes → Message
message_of status description = if is_empty description then http "" status else told description

-- A message with a status has neither of the two words.
unfoldable pub speaks_of_device : Qt → Bytes → Bool
speaks_of_device qt description =
    qt.contains_text description (codes "new device")
    || qt.contains_text description (codes "device verification")

unfoldable pub token_error_of : Qt → ℕ → Fields → ApiError
token_error_of qt status obj =
    let description = description_of obj in
    with_providers qt (value_of obj (codes "twoFactorProviders")) (record no_error {
      http_status = status;
      message = message_of status description;
      captcha_required =
          contains obj (codes "HCaptcha_SiteKey") || contains obj (codes "hCaptcha_SiteKey");
      new_device_verification_required =
          not (is_empty description) && speaks_of_device qt description;
    })

unfoldable pub parse_token_error : Qt → ℕ → Bytes → ApiError
parse_token_error qt status body = elim (object_of qt body) [
  | none ↦ record no_error { http_status = status; message = http "" status }
  | some obj ↦ token_error_of qt status obj
]
