-- ===== src/Tests/Lists.antt =====
-- The list model over two items.
use harbour_leyni.Prelude.{true, false, [], ◌∷◌, codes}
use mathlib.Core.List.{Perm}
use harbour_leyni.Vault.Items.{CipherType, DecryptedItem}
use harbour_leyni.Vault.ListModel.{ListModel, new_model, refresh, filtered_items, keep, is_shown}
use harbour_leyni.Vault.ListModel.Order.{AreFavoritesFirst, filtered_items-AreFavoritesFirst}
use harbour_leyni.Tests.Vault.{qt}

abbrev plain : DecryptedItem
plain = record {
  id = [];
  type = CipherType.login;
  folder_id = [];
  organization_id = [];
  favorite = false;
  name = codes "mail";
  username = [];
  primary_uri = [];
  has_totp = false;
  has_password = true;
  has_notes = false;
  has_details = false;
}

abbrev starred : DecryptedItem
starred = record plain { id = codes "b"; favorite = true; folder_id = codes "work" }

abbrev shown : ListModel
shown = refresh qt (plain ∷ starred ∷ []) new_model

filtered_items-AreFavoritesFirst_example :
    Perm
      (filtered_items qt (plain ∷ starred ∷ []) [] [])
      (keep (is_shown qt [] []) (plain ∷ starred ∷ []))
    × AreFavoritesFirst (filtered_items qt (plain ∷ starred ∷ []) [] [])
filtered_items-AreFavoritesFirst_example =
    filtered_items-AreFavoritesFirst qt (plain ∷ starred ∷ []) [] []
