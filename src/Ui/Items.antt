-- ===== src/Ui/Items.antt =====
-- src/ui/appcontroller.cpp: the secrets of an item, which are read on demand. Each read is activity.
use harbour_leyni.Prelude.{List, [], Bytes}
use harbour_leyni.Crypto.Primitives.{Primitives}
use harbour_leyni.Vault.Json.{ℤ, pos}
use harbour_leyni.Vault.Qt.{Qt}
use harbour_leyni.Vault.Items.{Answer, answer, failure}
use harbour_leyni.Vault.Access.{
  item_password, item_notes, item_totp_secret, item_detail_fields, totp_code,
}
use harbour_leyni.Ui.State.{App, Report, World, blank, vault_error, set_error, note}

-- A failure is the last error, and the text is empty.
unfoldable pub told : Answer Bytes → App → App × Bytes
told (answer text) a = (a, text)
told (failure f) a = (set_error (vault_error f) a, [])

-- A failure is not told.
unfoldable pub untold {ℓ} : {A : Type ℓ} → A → Answer A → A
untold default (answer text) = text
untold default (failure f) = default

-- The code, its seconds, and the error.
unfoldable pub code_entry : Answer (Bytes × ℤ) → Bytes × ℤ × Report
code_entry (answer (code, seconds)) = (code, seconds, blank)
code_entry (failure f) = ([], pos 0, vault_error f)

module _ (p : Primitives) (qt : Qt) where
  unfoldable pub password_of : Bytes → App → App × Bytes
  password_of item_id a = told (item_password p qt (note a).vault item_id) (note a)

  unfoldable pub notes_of : Bytes → App → App × Bytes
  notes_of item_id a = (note a, untold [] (item_notes p qt (note a).vault item_id))

  unfoldable pub totp_secret_of : Bytes → App → App × Bytes
  totp_secret_of item_id a = told (item_totp_secret p qt (note a).vault item_id) (note a)

  unfoldable pub detail_fields_of : Bytes → App → App × List (Bytes × Bytes)
  detail_fields_of item_id a = (note a, untold [] (item_detail_fields p qt (note a).vault item_id))

unfoldable pub totp_for : Primitives → World → Bytes → App → App × (Bytes × ℤ × Report)
totp_for p w item_id a = (note a, code_entry (totp_code p (note a).vault item_id w.unix_time))
