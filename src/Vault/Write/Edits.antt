-- ===== src/Vault/Write/Edits.antt =====
-- What `insert` and `remove` of a JSON object do to its other keys.
use native.Mathlib.Omega.{arith}
use harbour_leyni.Prelude.{
  ◌≡◌, refl, false, List, [], ◌∷◌, Bytes, bytes_equal, bytes_equal-eq, bytes_equal_self, All,
}
use harbour_leyni.Vault.Json.{Json, Fields, end, field, contains, value, insert_field, remove_field}
use harbour_leyni.Vault.SyncParser.{capitalize}
use harbour_leyni.Vault.Write.{remove_keys}

-- Two objects that say the same of a key.
abbrev pub Agrees : Bytes → Fields → Fields → Type 0
Agrees k body edited = (value edited k ≡ value body k) × (contains edited k ≡ contains body k)

pub Agrees-trans : (k : Bytes) (a b c : Fields) → Agrees k a b → Agrees k b c → Agrees k a c
Agrees-trans k a b c (ab, ab') (bc, bc') = (cc, cc)

pub insert_field-Agrees :
    (j k : Bytes) (v : Json) (body : Fields)
    → bytes_equal j k ≡ false
    → Agrees k body (insert_field j v body)
unfolding insert_field contains value
insert_field-Agrees j k v end other = ground (arith, other)
insert_field-Agrees j k v (field i w body) other =
    ground (arith, other, bytes_equal-eq i j, insert_field-Agrees j k v body other)

pub insert_field-value :
    (j : Bytes) (v : Json) (body : Fields) → value (insert_field j v body) j ≡ v
unfolding insert_field value
insert_field-value j v end = ground (arith, bytes_equal_self j)
insert_field-value j v (field i w body) =
    ground (arith, bytes_equal_self j, insert_field-value j v body)

-- One more insertion.
pub inserted-Agrees :
    (j k : Bytes) (v : Json) (body edited : Fields)
    → bytes_equal j k ≡ false
    → Agrees k body edited
    → Agrees k body (insert_field j v edited)
inserted-Agrees j k v body edited other agrees =
    Agrees-trans k body edited _ agrees (insert_field-Agrees j k v edited other)

pub remove_field-Agrees :
    (j k : Bytes) (body : Fields) → bytes_equal j k ≡ false → Agrees k body (remove_field j body)
unfolding remove_field contains value
remove_field-Agrees j k end other = (refl, refl)
remove_field-Agrees j k (field i w body) other =
    ground (arith, other, bytes_equal-eq i j, remove_field-Agrees j k body other)

pub remove_field-contains : (j : Bytes) (body : Fields) → contains (remove_field j body) j ≡ false
unfolding remove_field contains
remove_field-contains j end = refl
remove_field-contains j (field i w body) = ground (arith, remove_field-contains j body)

-- A key that no key of a list is, in either spelling.
abbrev pub IsApart : Bytes → List Bytes → Type 0
IsApart k = All (λ j. (bytes_equal j k ≡ false) × (bytes_equal (capitalize j) k ≡ false))

pub remove_keys-Agrees :
    (keys : List Bytes) (k : Bytes) (body : Fields)
    → IsApart k keys
    → Agrees k body (remove_keys keys body)
unfolding remove_keys
remove_keys-Agrees [] k body apart = (refl, refl)
remove_keys-Agrees (j ∷ keys) k body ((small, big), apart) =
    Agrees-trans k body (remove_field (capitalize j) (remove_field j body)) _
      (Agrees-trans k body (remove_field j body) _ (remove_field-Agrees j k body small)
        (remove_field-Agrees (capitalize j) k (remove_field j body) big))
      (remove_keys-Agrees keys k _ apart)

pub remove_field-absent :
    (j k : Bytes) (body : Fields)
    → contains body k ≡ false
    → contains (remove_field j body) k ≡ false
unfolding remove_field contains
remove_field-absent j k end absent = refl
remove_field-absent j k (field i w body) absent =
    ground (arith, absent, remove_field-absent j k body)

pub remove_keys-absent :
    (keys : List Bytes) (k : Bytes) (body : Fields)
    → contains body k ≡ false
    → contains (remove_keys keys body) k ≡ false
unfolding remove_keys
remove_keys-absent [] k body absent = absent
remove_keys-absent (j ∷ keys) k body absent =
    remove_keys-absent keys k _
      (remove_field-absent (capitalize j) k _ (remove_field-absent j k body absent))

-- In either spelling.
abbrev pub IsAbsent : Fields → Bytes → Type 0
IsAbsent body j = (contains body j ≡ false) × (contains body (capitalize j) ≡ false)

pub remove_keys-IsAbsent :
    (keys : List Bytes) (body : Fields) → All (IsAbsent (remove_keys keys body)) keys
unfolding remove_keys
remove_keys-IsAbsent [] body = tt
remove_keys-IsAbsent (j ∷ keys) body = (
  (
    remove_keys-absent keys j _
        (remove_field-absent (capitalize j) j _ (remove_field-contains j body)),
    remove_keys-absent keys (capitalize j) _
        (remove_field-contains (capitalize j) (remove_field j body)),
  ),
  remove_keys-IsAbsent keys _,
)
