-- ===== src/Ui/Writes.antt =====
-- src/ui/appcontroller.cpp: creating, changing and deleting an item. Each write ends with a sync.
use harbour_leyni.Prelude.{
  ◌==◌, Bool, true, false, ◌||◌, not, Bytes, String, is_empty, if◌then◌else◌,
}
use harbour_leyni.Crypto.Primitives.{Primitives}
use harbour_leyni.Vault.Qt.{Qt}
use harbour_leyni.Vault.Items.{CipherType, answer, failure}
use harbour_leyni.Vault.Session.{reload_sync}
use harbour_leyni.Vault.Write.{EditedItem, Ivs, build_create_body, build_update_body}
use harbour_leyni.Api.ServerConfig.{ServerConfig}
use harbour_leyni.Api.Types.{Message, blank, TokenResponse, Outcome, is_ok}
use harbour_leyni.Api.Client.{
  Request, refresh_token, sync, create_cipher, update_cipher, soft_delete_cipher,
}
use harbour_leyni.Ui.State.{
  Page, setup, login, two_factor, locked, unlocked, App, World, Report, words, api_error,
  vault_error, Write, create, update, soft_delete, write_call, refresh_write_call,
  retried_write_call, write_sync_call, set_page, set_busy, set_error, notify, await, refresh_model,
  with_vault, note,
}
use harbour_leyni.Ui.Session.{store_blob, take_tokens}

unfoldable pub write_request : ServerConfig → Bytes → Write → Request
write_request config token (create body) = create_cipher config token body
write_request config token (update id body) = update_cipher config token id body
write_request config token (soft_delete id) = soft_delete_cipher config token id

unfoldable pub refresh_then_write : Qt → Write → String → App → App
refresh_then_write qt write success a =
    if is_empty a.refresh_token
    then notify (words "Not signed in — Sync or sign in again") (set_busy false a)
    else await (refresh_write_call write success) (refresh_token qt a.config a.refresh_token) a

unfoldable pub write_and_resync : Qt → Write → String → App → App
write_and_resync qt write success a =
    if is_empty a.access_token
    then refresh_then_write qt write success a
    else await (write_call write success) (write_request a.config a.access_token write) a

unfoldable pub failure_report : Message → Report
failure_report blank = words "Save failed"
failure_report m = api_error m

unfoldable pub finish_write : Outcome Bytes → String → App → App
finish_write result success a =
    if not (is_ok result)
    then notify (failure_report result.error.message) (set_busy false a)
    else await (write_sync_call success) (sync a.config a.access_token) a

unfoldable pub is_expired : Outcome Bytes → Bool
is_expired result =
    if is_ok result
    then false
    else result.error.http_status == 401 || result.error.http_status == 403

unfoldable pub written : Qt → Write → String → Outcome Bytes → App → App
written qt write success result a =
    if is_expired result
    then refresh_then_write qt write success a
    else finish_write result success a

unfoldable pub refreshed_to_write : Write → String → Outcome TokenResponse → App → App
refreshed_to_write write success r a =
    if not (is_ok r)
    then notify (words "Session expired — sign in again") (set_busy false a)
    else await (retried_write_call write success)
        (write_request a.config r.value.access_token write) (take_tokens r.value a)

unfoldable pub is_unlocked : Page → Bool
is_unlocked unlocked = true
is_unlocked _ = false

unfoldable pub if_unlocked : (App → App) → App → App
if_unlocked next a =
    let begun = next a in
    if not (is_unlocked a.page) then notify (words "Unlock the vault first") a else begun

-- After the guards of a write
unfoldable pub begin_write : Qt → Write → String → App → App
begin_write qt write success a =
    write_and_resync qt write success
      (set_busy true (set_error harbour_leyni.Ui.State.Report.blank (note a)))

unfoldable pub delete_item : Qt → Bytes → App → App
delete_item qt item_id = if_unlocked (begin_write qt (soft_delete item_id) "Item deleted")

module _ (p : Primitives) (qt : Qt) where
  unfoldable pub apply_write_sync : World → Bytes → String → App → App
  apply_write_sync w blob success a =
      let stored = store_blob w blob a in
      let (v, result) = reload_sync p qt blob stored.vault in
      elim result [
        | answer skipped ↦ notify (words success) (refresh_model qt (with_vault qt v stored))
        | failure f ↦ set_error (vault_error f) (set_page locked (with_vault qt v stored))
      ]

  unfoldable pub write_synced : World → String → Outcome Bytes → App → App
  write_synced w success result a =
      let applied = apply_write_sync w result.value success (set_busy false a) in
      if not (is_ok result)
      then notify (words "Saved — sync failed, pull to refresh") (set_busy false a)
      else applied

  -- No body is empty: the text of an object has its braces.
  unfoldable pub create_item : CipherType → EditedItem → Ivs → App → App
  create_item type fields ivs = if_unlocked λ a.
      elim (build_create_body p qt type fields ivs a.vault) [
        | failure f ↦ notify (vault_error f) a
        | answer body ↦ begin_write qt (create body) "Item created" a
      ]

  unfoldable pub save_item : Bytes → EditedItem → Ivs → App → App
  save_item item_id fields ivs = if_unlocked λ a.
      elim (build_update_body p qt item_id fields ivs a.vault) [
        | failure f ↦ notify (vault_error f) a
        | answer body ↦ begin_write qt (update item_id body) "Item saved" a
      ]
