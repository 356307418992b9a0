-- ===== src/Vault/Qt.antt =====
-- What the vault takes from Qt, which is no code of the repository: a parameter of every definition
-- that calls it. A `QString` is its UTF-8 bytes.
use harbour_leyni.Prelude.{ℕ, Bool, List, Option, Bytes}
use harbour_leyni.Vault.Json.{ℤ, Json, Fields}

pub record Qt : Type 0 where
  -- `QJsonDocument::fromJson`; `none` is a parse error
  pub from_json : Bytes → Option Json
  -- `QString::fromUtf8`, which replaces what is no UTF-8
  pub from_utf8 : Bytes → Bytes
  -- `QString::trimmed` and `QString::toLower`
  pub trimmed : Bytes → Bytes
  pub to_lower : Bytes → Bytes
  -- `a.localeAwareCompare(b) < 0`
  pub locale_less : Bytes → Bytes → Bool
  -- `a.contains(b, Qt::CaseInsensitive)`
  pub contains_text : Bytes → Bytes → Bool
  -- `QJsonDocument(object).toJson(QJsonDocument::Compact)`
  pub to_json : Fields → Bytes
  -- `QUrl::toPercentEncoding`
  pub percent_encoding : Bytes → Bytes
  -- `toBase64(Base64UrlEncoding | OmitTrailingEquals)`
  pub base64_url : Bytes → Bytes
  -- `QString::toInt`; `none` is a text that is no number
  pub text_to_int : Bytes → Option ℤ
  -- `query(QUrl::FullyEncoded)` of a `QUrlQuery` with these items, which are percent-encoded
  pub query : List (Bytes × Bytes) → Bytes
  -- `QString::size`
  pub size : Bytes → ℕ
