-- ===== src/Vault/Maps.antt =====
-- `std::map` and `QHash` with text keys, as association lists: what src/vault reads and writes of
-- them does not depend on the order of the keys.
use harbour_leyni.Prelude.{List, [], ◌∷◌, Option, none, some, Bytes, bytes_equal, if◌then◌else◌}

module _ {ℓ} {V : Type ℓ} where
  unfoldable pub lookup : List (Bytes × V) → Bytes → Option V
  lookup [] key = none
  lookup ((k, v) ∷ entries) key = if bytes_equal k key then some v else lookup entries key

  -- `std::map::emplace`: an entry that is there stays.
  unfoldable pub emplace : List (Bytes × V) → Bytes → V → List (Bytes × V)
  emplace [] key v = (key, v) ∷ []
  emplace ((k, w) ∷ entries) key v =
      let rest = emplace entries key v in
      if bytes_equal k key then (k, w) ∷ entries else (k, w) ∷ rest

  -- `QHash::insert`: an entry that is there is replaced.
  unfoldable pub insert : List (Bytes × V) → Bytes → V → List (Bytes × V)
  insert [] key v = (key, v) ∷ []
  insert ((k, w) ∷ entries) key v =
      let rest = insert entries key v in
      if bytes_equal k key then (k, v) ∷ entries else (k, w) ∷ rest
