-- ===== src/Vault/ListModel/Order.antt =====
-- What the filter keeps and how the rows are sorted.
use harbour_leyni.Prelude.{
  ◌≡◌, refl, arith, Bool, true, false, Bool-cases, ◌||◌, inl, inr, List, [], ◌∷◌, Bytes, All,
}
use mathlib.Core.List.{Perm}
use mathlib.Core.List.Perm
use harbour_leyni.Vault.Qt.{Qt}
use harbour_leyni.Vault.Items.{DecryptedItem}
use harbour_leyni.Vault.ListModel.{
  is_shown, keep, comes_before, sorted_insert, stable_sort, filtered_items, first_favorite,
}

module _ (P : DecryptedItem → Type 0) where
  keep-All :
      (test : DecryptedItem → Bool) (items : List DecryptedItem)
      → All P items
      → All P (keep test items)
  unfolding keep
  keep-All test [] h = tt
  keep-All test (item ∷ items) h = elim (Bool-cases (test item)) [
    | inl e ↦ rw (keep, e) (h.0, keep-All test items h.1)
    | inr e ↦ rw (keep, e) (keep-All test items h.1)
  ]

  sorted_insert-All :
      (qt : Qt) (item : DecryptedItem) (items : List DecryptedItem)
      → P item
      → All P items
      → All P (sorted_insert qt item items)
  unfolding sorted_insert
  sorted_insert-All qt item [] h hs = (h, tt)
  sorted_insert-All qt item (other ∷ items) h hs = elim (Bool-cases (comes_before qt other item)) [
    | inl e ↦ rw (sorted_insert, e) (hs.0, sorted_insert-All qt item items h hs.1)
    | inr e ↦ rw (sorted_insert, e) (h, hs)
  ]

  stable_sort-All :
      (qt : Qt) (items : List DecryptedItem) → All P items → All P (stable_sort qt items)
  unfolding stable_sort
  stable_sort-All qt [] h = tt
  stable_sort-All qt (item ∷ items) h =
      sorted_insert-All qt item (stable_sort qt items) h.0 (stable_sort-All qt items h.1)

  -- What holds of every item of the source holds of every row.
  pub filtered_items-All :
      (qt : Qt) (source : List DecryptedItem) (folder_filter search_query : Bytes)
      → All P source
      → All P (filtered_items qt source folder_filter search_query)
  unfolding filtered_items
  filtered_items-All qt source folder_filter search_query h =
      stable_sort-All qt _ (keep-All (is_shown qt folder_filter search_query) source h)

abbrev AreOrdinary : List DecryptedItem → Type 0
AreOrdinary = All (λ item. item.favorite ≡ false)

-- No favourite comes after an item that is none.
abbrev pub AreFavoritesFirst : List DecryptedItem → Type 0
AreFavoritesFirst [] = Unit
AreFavoritesFirst (item ∷ items) =
    (item.favorite ≡ false → All (λ later. later.favorite ≡ false) items) × AreFavoritesFirst items

ordinary_after :
    (qt : Qt) (a b : DecryptedItem)
    → comes_before qt a b ≡ true
    → a.favorite ≡ false
    → b.favorite ≡ false
unfolding comes_before
ordinary_after qt a b e plain = ground (arith, e, plain)

ordinary_next :
    (qt : Qt) (a b : DecryptedItem)
    → comes_before qt a b ≡ false
    → b.favorite ≡ false
    → a.favorite ≡ false
unfolding comes_before
ordinary_next qt a b e plain = ground (arith, e, plain)

sorted_insert-AreFavoritesFirst :
    (qt : Qt) (item : DecryptedItem) (items : List DecryptedItem)
    → AreFavoritesFirst items
    → AreFavoritesFirst (sorted_insert qt item items)
unfolding sorted_insert
sorted_insert-AreFavoritesFirst qt item [] h = (λ e. tt, tt)
sorted_insert-AreFavoritesFirst qt item (other ∷ items) h =
    elim (Bool-cases (comes_before qt other item)) [
      | inl e ↦
          rw (sorted_insert, e)
            (
              λ (plain : other.favorite ≡ false).
                  sorted_insert-All (λ later. later.favorite ≡ false) qt item items
                    (ordinary_after qt other item e plain) (h.0 plain),
              sorted_insert-AreFavoritesFirst qt item items h.1,
            )
      | inr e ↦
          rw (sorted_insert, e)
            (
              λ (plain : item.favorite ≡ false).
                  let next = ordinary_next qt other item e plain in (next, h.0 next),
              h,
            )
    ]

stable_sort-AreFavoritesFirst :
    (qt : Qt) (items : List DecryptedItem) → AreFavoritesFirst (stable_sort qt items)
unfolding stable_sort
stable_sort-AreFavoritesFirst qt [] = tt
stable_sort-AreFavoritesFirst qt (item ∷ items) =
    sorted_insert-AreFavoritesFirst qt item (stable_sort qt items)
      (stable_sort-AreFavoritesFirst qt items)

sorted_insert-perm :
    (qt : Qt) (item : DecryptedItem) (items : List DecryptedItem)
    → Perm (sorted_insert qt item items) (item ∷ items)
unfolding sorted_insert
sorted_insert-perm qt item [] = Perm.rfl
sorted_insert-perm qt item (other ∷ items) = elim (Bool-cases (comes_before qt other item)) [
  | inl e ↦
      rw (sorted_insert, e)
        (Perm.trans (Perm.cons other (sorted_insert-perm qt item items))
          (Perm.swap item other items))
  | inr e ↦ rw (sorted_insert, e) Perm.rfl
]

stable_sort-perm : (qt : Qt) (items : List DecryptedItem) → Perm (stable_sort qt items) items
unfolding stable_sort
stable_sort-perm qt [] = Perm.rfl
stable_sort-perm qt (item ∷ items) =
    Perm.trans (sorted_insert-perm qt item (stable_sort qt items))
      (Perm.cons item (stable_sort-perm qt items))

-- The rows are the items of the source that the filters let through, each as often, and the
-- favourites come first, whatever the collation.
pub filtered_items-AreFavoritesFirst :
    (qt : Qt) (source : List DecryptedItem) (folder_filter search_query : Bytes)
    → Perm
        (filtered_items qt source folder_filter search_query)
        (keep (is_shown qt folder_filter search_query) source)
      × AreFavoritesFirst (filtered_items qt source folder_filter search_query)
unfolding filtered_items
filtered_items-AreFavoritesFirst qt source folder_filter search_query =
    (stable_sort-perm qt _, stable_sort-AreFavoritesFirst qt _)

abbrev pub any_favorite : List DecryptedItem → Bool
any_favorite [] = false
any_favorite (item ∷ items) = item.favorite || any_favorite items

no_favorite : (items : List DecryptedItem) → AreOrdinary items → any_favorite items ≡ false
no_favorite [] h = refl
no_favorite (item ∷ items) h = ground (arith, h.0, no_favorite items h.1)

-- So the first row tells whether there is a favourite.
pub first_favorite-eq :
    (items : List DecryptedItem)
    → AreFavoritesFirst items
    → first_favorite items ≡ any_favorite items
unfolding first_favorite
first_favorite-eq [] h = refl
first_favorite-eq (item ∷ items) h = elim (Bool-cases item.favorite) [
  | inl e ↦ ground (arith, e)
  | inr e ↦ ground (arith, e, no_favorite items (h.0 e))
]
