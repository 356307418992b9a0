-- ===== src/Vault/ListModel/Refines.antt =====
-- The rows of the list are at all times the filtered items: row changes refine the whole filter.
use harbour_leyni.Prelude.{either, ◌≡◌, refl, ap, sym, ◌∙◌, arith, not, List, if◌then◌else◌}
use harbour_leyni.Vault.Qt.{Qt}
use harbour_leyni.Vault.Items.{DecryptedItem}
use harbour_leyni.Vault.ListModel.{
  RowChange, ListModel, new_model, keep, stable_sort, filtered_items, first_favorite,
  update_has_favorites, refresh,
}
use harbour_leyni.Vault.ListModel.Order.{
  filtered_items-AreFavoritesFirst, any_favorite, first_favorite-eq,
}
use harbour_leyni.Vault.ListModel.Merge.{replay, Agrees}

-- An id names one item.
abbrev pub AreIdentified : List DecryptedItem → Type 0
AreIdentified items = Agrees items items

-- The rows are what the filters let through of the source, and the flag tells whether one of them
-- is a favourite.
pub record Shows (qt : Qt) (m : ListModel) : Type 0 where
  pub rows : m.filtered ≡ filtered_items qt m.source m.folder_filter m.search_query
  pub flag : m.has_favorites ≡ any_favorite m.filtered

pub new_model-Shows : (qt : Qt) → Shows qt new_model
unfolding filtered_items keep stable_sort
new_model-Shows qt = record { rows = refl; flag = refl }

-- Of a model whose rows are right, the flag is put right.
update_has_favorites-Shows :
    (qt : Qt) (m : ListModel)
    → m.filtered ≡ filtered_items qt m.source m.folder_filter m.search_query
    → Shows qt (update_has_favorites m)
unfolding update_has_favorites
update_has_favorites-Shows qt m e =
    let sorted = (filtered_items-AreFavoritesFirst qt m.source m.folder_filter m.search_query).1 in
    let first : first_favorite m.filtered ≡ any_favorite m.filtered =
      ap first_favorite e ∙ first_favorite-eq _ sorted ∙ ap any_favorite (sym e) in
    either (Shows qt) (if first_favorite m.filtered then not m.has_favorites else m.has_favorites)
      (λ changed. record { rows = e; flag = first })
      (λ same. record { rows = e; flag = ground (arith, same, first) })

pub refresh-Shows :
    (qt : Qt) (items : List DecryptedItem) (m : ListModel) → Shows qt (refresh qt items m)
unfolding refresh
refresh-Shows qt items m = update_has_favorites-Shows qt _ refl

-- A view follows the model from `m` to `n` by making the changes, and `n` shows what it has to.
abbrev pub Follows : Qt → ListModel → ListModel × List RowChange → Type 0
Follows qt m n = Shows qt n.0 × (replay n.1 m.filtered ≡ n.0.filtered)
