-- ===== src/Vault/ListModel.antt =====
-- src/vault/vaultmodel.{h,cpp}: the list that the user sees, with its search and folder filters. A
-- filter changes the rows by single inserts and removals, which a view repeats.
pub mod Order
pub mod Merge
pub mod Refines
use harbour_leyni.Prelude.{
  ℕ, zero, suc, ◌+◌, Bool, true, false, ◌&&◌, ◌||◌, not, List, [], ◌∷◌, ◌++◌, Bytes, codes,
  bytes_equal, is_empty, if◌then◌else◌,
}
use harbour_leyni.Vault.Qt.{Qt}
use harbour_leyni.Vault.Items.{DecryptedItem}

-- What `beginInsertRows` and `beginRemoveRows` announce.
pub data RowChange : Type 0 where
  inserted : ℕ → DecryptedItem → RowChange
  removed : ℕ → RowChange

-- `favorites_notices` counts the signals `hasFavoritesChanged`.
pub record ListModel : Type 0 where
  pub source : List DecryptedItem
  pub filtered : List DecryptedItem
  pub search_query : Bytes
  pub folder_filter : Bytes
  pub has_favorites : Bool
  pub favorites_notices : ℕ

abbrev pub new_model : ListModel
new_model = record {
  source = [];
  filtered = [];
  search_query = [];
  folder_filter = [];
  has_favorites = false;
  favorites_notices = 0;
}

unfoldable pub in_folder : Bytes → DecryptedItem → Bool
in_folder folder_filter item =
    if is_empty folder_filter
    then true
    else if bytes_equal folder_filter (codes "none")
    then is_empty item.folder_id
    else bytes_equal item.folder_id folder_filter

unfoldable pub contains_query : Qt → Bytes → DecryptedItem → Bool
contains_query qt search_query item =
    is_empty search_query
    || (qt.contains_text item.name search_query
        || qt.contains_text item.username search_query
        || qt.contains_text item.primary_uri search_query)

unfoldable pub is_shown : Qt → Bytes → Bytes → DecryptedItem → Bool
is_shown qt folder_filter search_query item =
    in_folder folder_filter item && contains_query qt search_query item

unfoldable pub keep : (DecryptedItem → Bool) → List DecryptedItem → List DecryptedItem
keep test [] = []
keep test (item ∷ items) = let rest = keep test items in if test item then item ∷ rest else rest

-- The comparison that is given to `std::stable_sort`.
unfoldable pub comes_before : Qt → DecryptedItem → DecryptedItem → Bool
comes_before qt a b =
    if a.favorite
    then (if b.favorite then qt.locale_less a.name b.name else true)
    else (if b.favorite then false else qt.locale_less a.name b.name)

-- `std::stable_sort`, as an insertion from the right: an item goes in front of its equals.
unfoldable pub sorted_insert : Qt → DecryptedItem → List DecryptedItem → List DecryptedItem
sorted_insert qt item [] = item ∷ []
sorted_insert qt item (other ∷ items) =
    let rest = sorted_insert qt item items in
    if comes_before qt other item then other ∷ rest else item ∷ other ∷ items

unfoldable pub stable_sort : Qt → List DecryptedItem → List DecryptedItem
stable_sort qt [] = []
stable_sort qt (item ∷ items) = sorted_insert qt item (stable_sort qt items)

unfoldable pub filtered_items : Qt → List DecryptedItem → Bytes → Bytes → List DecryptedItem
filtered_items qt source folder_filter search_query =
    stable_sort qt (keep (is_shown qt folder_filter search_query) source)

-- `freshIds.contains`
unfoldable pub has_id : List DecryptedItem → Bytes → Bool
has_id [] id = false
has_id (item ∷ items) id = bytes_equal item.id id || has_id items id

-- The inner loop, over the rows from `row` on: those that are left, and the changes.
unfoldable pub drop_stale :
    List DecryptedItem
    → DecryptedItem
    → ℕ
    → List DecryptedItem
    → List DecryptedItem × List RowChange
drop_stale fresh item row [] = ([], [])
drop_stale fresh item row (current ∷ rows) =
    let later = drop_stale fresh item row rows in
    if not (bytes_equal current.id item.id) && not (has_id fresh current.id)
    then (later.0, removed row ∷ later.1)
    else (current ∷ rows, [])

-- The row that stands for `item`, the rows after it, and the change, if there is one.
unfoldable pub place :
    DecryptedItem → ℕ → List DecryptedItem → DecryptedItem × List DecryptedItem × List RowChange
place item row [] = (item, [], inserted row item ∷ [])
place item row (current ∷ rows) =
    if bytes_equal current.id item.id
    then (current, rows, [])
    else (item, current ∷ rows, inserted row item ∷ [])

-- The last loop.
unfoldable pub drop_rest : ℕ → List DecryptedItem → List RowChange
drop_rest row [] = []
drop_rest row (current ∷ rows) = removed row ∷ drop_rest row rows

-- The walk over the fresh items, at `row`: the rows from there on, and the changes.
unfoldable pub merge_walk :
    List DecryptedItem
    → List DecryptedItem
    → ℕ
    → List DecryptedItem
    → List DecryptedItem × List RowChange
merge_walk fresh [] row rows = ([], drop_rest row rows)
merge_walk fresh (item ∷ items) row rows =
    let (left, drops) = drop_stale fresh item row rows in
    let (placed, later, change) = place item row left in
    let (after, changes) = merge_walk fresh items (row + 1) later in
    (placed ∷ after, drops ++ (change ++ changes))

unfoldable pub first_favorite : List DecryptedItem → Bool
first_favorite [] = false
first_favorite (item ∷ items) = item.favorite

unfoldable pub update_has_favorites : ListModel → ListModel
update_has_favorites m =
    let now = first_favorite m.filtered in
    if (if now then not m.has_favorites else m.has_favorites)
    then record m { has_favorites = now; favorites_notices = m.favorites_notices + 1 }
    else m

unfoldable pub apply_filter_diff : Qt → ListModel → ListModel × List RowChange
apply_filter_diff qt m =
    let fresh = filtered_items qt m.source m.folder_filter m.search_query in
    let (rows, changes) = merge_walk fresh fresh 0 m.filtered in
    (update_has_favorites (record m { filtered = rows }), changes)

-- A reset of the whole list: `items` are those of the vault.
unfoldable pub refresh : Qt → List DecryptedItem → ListModel → ListModel
refresh qt items m =
    update_has_favorites (record m {
      source = items;
      filtered = filtered_items qt items m.folder_filter m.search_query;
    })

unfoldable pub set_search_query : Qt → Bytes → ListModel → ListModel × List RowChange
set_search_query qt query m =
    if bytes_equal m.search_query query
    then (m, [])
    else apply_filter_diff qt (record m { search_query = query })

unfoldable pub set_folder_filter : Qt → Bytes → ListModel → ListModel × List RowChange
set_folder_filter qt folder_id m =
    if bytes_equal m.folder_filter folder_id
    then (m, [])
    else apply_filter_diff qt (record m { folder_filter = folder_id })
