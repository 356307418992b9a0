-- ===== src/Vault/ListModel/Merge.antt =====
-- The walk of `applyFilterDiff`: its changes, made one by one, turn the old rows into the new.
use harbour_leyni.Prelude.{
  ℕ, zero, suc, ◌+◌, ◌≡◌, refl, ap, sym, ◌∙◌, arith, Bool-cases, not, ◌&&◌, inl, inr, List, [], ◌∷◌,
  ◌++◌, bytes_equal, bytes_equal-eq, length, length-append, All,
}
use mathlib.Core.Path.{ap₂}
use mathlib.Core.List.{append_assoc}
use harbour_leyni.Vault.Items.{DecryptedItem}
use harbour_leyni.Vault.ListModel.{
  RowChange, inserted, removed, has_id, drop_stale, place, drop_rest, merge_walk,
}

-- `QList::insert` and `QList::removeAt`
abbrev pub insert_at : ℕ → DecryptedItem → List DecryptedItem → List DecryptedItem
insert_at zero item rows = item ∷ rows
insert_at (suc n) item [] = item ∷ []
insert_at (suc n) item (row ∷ rows) = row ∷ insert_at n item rows

abbrev pub remove_at : ℕ → List DecryptedItem → List DecryptedItem
remove_at n [] = []
remove_at zero (row ∷ rows) = rows
remove_at (suc n) (row ∷ rows) = row ∷ remove_at n rows

-- What a view has that makes each announced change.
unfoldable pub replay : List RowChange → List DecryptedItem → List DecryptedItem
replay [] rows = rows
replay (inserted n item ∷ changes) rows = replay changes (insert_at n item rows)
replay (removed n ∷ changes) rows = replay changes (remove_at n rows)

insert_at-append :
    (front : List DecryptedItem) (item : DecryptedItem) (rows : List DecryptedItem)
    → insert_at (length front) item (front ++ rows) ≡ front ++ item ∷ rows
insert_at-append [] item rows = refl
insert_at-append (x ∷ front) item rows = ap (λ ys. x ∷ ys) (insert_at-append front item rows)

remove_at-append :
    (front : List DecryptedItem) (item : DecryptedItem) (rows : List DecryptedItem)
    → remove_at (length front) (front ++ item ∷ rows) ≡ front ++ rows
remove_at-append [] item rows = refl
remove_at-append (x ∷ front) item rows = ap (λ ys. x ∷ ys) (remove_at-append front item rows)

replay-append :
    (first later : List RowChange) (rows : List DecryptedItem)
    → replay (first ++ later) rows ≡ replay later (replay first rows)
unfolding replay
replay-append [] later rows = refl
replay-append (inserted n item ∷ first) later rows =
    replay-append first later (insert_at n item rows)
replay-append (removed n ∷ first) later rows = replay-append first later (remove_at n rows)

replay-drop_rest :
    (front rows : List DecryptedItem)
    → replay (drop_rest (length front) rows) (front ++ rows) ≡ front ++ []
unfolding replay drop_rest
replay-drop_rest front [] = refl
replay-drop_rest front (row ∷ rows) =
    ap (replay (drop_rest (length front) rows)) (remove_at-append front row rows)
    ∙ replay-drop_rest front rows

replay-drop_stale :
    (fresh : List DecryptedItem) (item : DecryptedItem) (front rows : List DecryptedItem)
    → replay (drop_stale fresh item (length front) rows).1 (front ++ rows)
      ≡ front ++ (drop_stale fresh item (length front) rows).0
unfolding replay drop_stale
replay-drop_stale fresh item front [] = refl
replay-drop_stale fresh item front (row ∷ rows) =
    elim (Bool-cases (not (bytes_equal row.id item.id) && not (has_id fresh row.id))) [
      | inl stale ↦
          rw (drop_stale, stale)
            (ap (replay (drop_stale fresh item (length front) rows).1)
                (remove_at-append front row rows)
              ∙ replay-drop_stale fresh item front rows)
      | inr kept ↦ rw (drop_stale, kept)
    ]

replay-place :
    (item : DecryptedItem) (front rows : List DecryptedItem)
    → let placed = place item (length front) rows in
      replay placed.2 (front ++ rows) ≡ front ++ placed.0 ∷ placed.1
unfolding replay place
replay-place item front [] = insert_at-append front item []
replay-place item front (row ∷ rows) = elim (Bool-cases (bytes_equal row.id item.id)) [
  | inl same ↦ rw (place, same)
  | inr other ↦ rw (place, other) (insert_at-append front item (row ∷ rows))
]

place_at :
    (item : DecryptedItem) (front rows : List DecryptedItem) (n : ℕ)
    → n ≡ length front
    → replay (place item n rows).2 (front ++ rows)
      ≡ front ++ (place item n rows).0 ∷ (place item n rows).1
place_at item front rows n e = rw e (replay-place item front rows)

-- The steps for one item, one after the other.
replay-walk :
    (fresh items front rows : List DecryptedItem) (n : ℕ)
    → n ≡ length front
    → replay (merge_walk fresh items n rows).1 (front ++ rows)
      ≡ front ++ (merge_walk fresh items n rows).0
unfolding merge_walk
replay-walk fresh [] front rows n e = rw e (replay-drop_rest front rows)
replay-walk fresh (item ∷ items) front rows n e =
    let left = drop_stale fresh item n rows in
    let placed = place item n left.0 in
    let after = merge_walk fresh items (n + 1) placed.1 in
    let longer : n + 1 ≡ length (front ++ placed.0 ∷ []) =
      omega (arith, e, length-append front (placed.0 ∷ [])) in
    let dropped : replay left.1 (front ++ rows) ≡ front ++ left.0 =
      rw e (replay-drop_stale fresh item front rows) in
    let put : replay placed.2 (front ++ left.0) ≡ front ++ placed.0 ∷ placed.1 =
      place_at item front left.0 n e in
    replay-append left.1 (placed.2 ++ after.1) (front ++ rows)
    ∙ ap (replay (placed.2 ++ after.1)) dropped
    ∙ replay-append placed.2 after.1 (front ++ left.0)
    ∙ ap (replay after.1) (put ∙ sym (append_assoc front (placed.0 ∷ []) placed.1))
    ∙ replay-walk fresh items (front ++ placed.0 ∷ []) placed.1 (n + 1) longer
    ∙ append_assoc front (placed.0 ∷ []) after.0

-- The changes that the walk announces turn the rows that a view has into the new rows.
pub replay-merge_walk :
    (fresh rows : List DecryptedItem)
    → replay (merge_walk fresh fresh 0 rows).1 rows ≡ (merge_walk fresh fresh 0 rows).0
replay-merge_walk fresh rows = replay-walk fresh fresh [] rows 0 refl

-- Two items with the same id are the same item.
abbrev pub SameById : DecryptedItem → DecryptedItem → Type 0
SameById a b = a.id ≡ b.id → a ≡ b

abbrev pub Agrees : List DecryptedItem → List DecryptedItem → Type 0
Agrees items = All (λ row. All (SameById row) items)

Agrees-tail :
    (item : DecryptedItem) (items rows : List DecryptedItem)
    → Agrees (item ∷ items) rows
    → Agrees items rows
Agrees-tail item items [] h = tt
Agrees-tail item items (row ∷ rows) h = (h.0.1, Agrees-tail item items rows h.1)

Agrees-drop_stale :
    (fresh items : List DecryptedItem) (item : DecryptedItem) (n : ℕ) (rows : List DecryptedItem)
    → Agrees items rows
    → Agrees items (drop_stale fresh item n rows).0
unfolding drop_stale
Agrees-drop_stale fresh items item n [] h = tt
Agrees-drop_stale fresh items item n (row ∷ rows) h =
    elim (Bool-cases (not (bytes_equal row.id item.id) && not (has_id fresh row.id))) [
      | inl stale ↦ rw (drop_stale, stale) (Agrees-drop_stale fresh items item n rows h.1)
      | inr kept ↦ rw (drop_stale, kept) h
    ]

-- The row that stands for the item is the item; no row after it is new.
place_lem :
    (item : DecryptedItem) (items : List DecryptedItem) (n : ℕ) (rows : List DecryptedItem)
    → Agrees (item ∷ items) rows
    → ((place item n rows).0 ≡ item) × Agrees items (place item n rows).1
unfolding place
place_lem item items n [] h = (refl, tt)
place_lem item items n (row ∷ rows) h = elim (Bool-cases (bytes_equal row.id item.id)) [
  | inl same ↦
      rw (place, same) (h.0.0 (bytes_equal-eq row.id item.id same), Agrees-tail item items rows h.1)
  | inr other ↦ rw (place, other) (refl, Agrees-tail item items (row ∷ rows) h)
]

-- If rows and fresh items with the same id are the same, the new rows are the fresh items.
pub merge_walk-eq :
    (fresh items : List DecryptedItem) (n : ℕ) (rows : List DecryptedItem)
    → Agrees items rows
    → (merge_walk fresh items n rows).0 ≡ items
unfolding merge_walk
merge_walk-eq fresh [] n rows h = refl
merge_walk-eq fresh (item ∷ items) n rows h =
    let left = drop_stale fresh item n rows in
    let placed = place item n left.0 in
    let (same, later) =
      place_lem item items n left.0 (Agrees-drop_stale fresh (item ∷ items) item n rows h) in
    ap₂ ◌∷◌ same (merge_walk-eq fresh items (n + 1) placed.1 later)
