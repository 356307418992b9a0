-- ===== src/Vault/Write/Survives.antt =====
-- What an edit of an item sends of the object that it starts from (buildUpdateBody of
-- src/vault/vault.cpp).
use native.Mathlib.Omega.{arith}
use harbour_leyni.Prelude.{
  ◌≡◌, refl, Bool, true, false, not, ◌&&◌, List, [], ◌∷◌, Bytes, bytes_equal, is_empty, some, inl,
  inr, All, either, maybe, Result-cases,
}
use harbour_leyni.Vault.Qt.{Qt}
use harbour_leyni.Vault.State.{Vault}
use harbour_leyni.Vault.Access.{find_cipher, cipher_key}
use harbour_leyni.Crypto.Primitives.{Primitives}
use harbour_leyni.Crypto.Keys.{SymmetricKey}
use harbour_leyni.Vault.Json.{Fields}
use harbour_leyni.Vault.Items.{EncryptedCipher, Answer, answer, answered}
use harbour_leyni.Vault.SyncParser.{capitalize}
use harbour_leyni.Vault.Write.{
  EditedItem, Ivs, response_only, remove_keys, update_object, update_body, build_update_body,
}
use harbour_leyni.Vault.Write.Edits.{
  Agrees, Agrees-trans, remove_keys-Agrees, IsApart, IsAbsent, remove_keys-IsAbsent,
}
use harbour_leyni.Vault.Write.Steps.{
  edited_keys, IsOther, update_object-Agrees, Renames, update_object-Renames,
}

-- No key of a list is one that an edit writes, in either spelling.
unfoldable is_other : Bytes → List Bytes → Bool
is_other k [] = true
is_other k (j ∷ keys) = not (bytes_equal j k) && is_other k keys

unfoldable are_apart : List Bytes → Bool
are_apart [] = true
are_apart (j ∷ keys) =
    (is_other j edited_keys && is_other (capitalize j) edited_keys) && are_apart keys

is_other-IsOther : (k : Bytes) (keys : List Bytes) → is_other k keys ≡ true → IsOther k keys
unfolding is_other
is_other-IsOther k [] e = tt
is_other-IsOther k (j ∷ keys) e = (ground arith, is_other-IsOther k keys (ground arith))

response_only-are_apart : are_apart response_only ≡ true
unfolding are_apart is_other bytes_equal capitalize
response_only-are_apart = refl

stay-IsAbsent :
    (raw body : Fields) (keys : List Bytes)
    → ((k : Bytes) → IsOther k edited_keys → Agrees k raw body)
    → are_apart keys ≡ true
    → All (IsAbsent raw) keys
    → All (IsAbsent body) keys
unfolding are_apart
stay-IsAbsent raw body [] agrees apart absent = tt
stay-IsAbsent raw body (j ∷ keys) agrees apart ((small, big), absent) =
    let (_, same) = agrees j (is_other-IsOther j edited_keys (ground arith)) in
    let (_, same_big) =
      agrees (capitalize j) (is_other-IsOther (capitalize j) edited_keys (ground arith)) in
    ((cc, cc), stay-IsAbsent raw body keys agrees (ground arith) absent)

-- The item, its key and the object that its edit sends: what it keeps, what it writes, and what it
-- leaves out.
abbrev pub Sends : Primitives → Qt → Vault → Bytes → EditedItem → Ivs → Bytes → Bytes → Type 0
Sends p qt v item_id fields ivs k text =
    (cipher : EncryptedCipher) × (key : SymmetricKey) × (body : Fields) × (find_cipher v item_id
      ≡ some cipher)
    × (cipher_key p v cipher ≡ answer key)
    × (text ≡ qt.to_json body)
    × Agrees k cipher.raw body
    × Renames p fields ivs key body
    × All (IsAbsent body) response_only

module _ (p : Primitives) (qt : Qt) (v : Vault) (item_id : Bytes) (fields : EditedItem) (ivs : Ivs)
    (k text : Bytes) where
  -- What an answer of that text tells.
  abbrev Tells : Answer Bytes → Type 0
  Tells r = r ≡ answer text → (v.locked ≡ false) × Sends p qt v item_id fields ivs k text

  update_body-Sends :
      (cipher : EncryptedCipher) (key : SymmetricKey)
      → IsOther k edited_keys
      → IsApart k response_only
      → find_cipher v item_id ≡ some cipher
      → cipher_key p v cipher ≡ answer key
      → update_body p qt cipher fields ivs key ≡ answer text
      → Sends p qt v item_id fields ivs k text
  unfolding update_body
  update_body-Sends cipher key other apart found has_key e =
      elim (Result-cases (update_object p cipher fields ivs key)) [
        | inr (thrown_by, threw) ↦ absurd (ground (arith, threw, e))
        | inl (body, made) ↦
            let raw = remove_keys response_only cipher.raw in
            (
              cipher,
              key,
              body,
              found,
              has_key,
              ground (arith, made, e),
              Agrees-trans k cipher.raw raw body
                  (remove_keys-Agrees response_only k cipher.raw apart)
                  (update_object-Agrees p cipher fields ivs key body k made other),
              update_object-Renames p cipher fields ivs key body made,
              stay-IsAbsent raw body response_only
                  (λ j. update_object-Agrees p cipher fields ivs key body j made)
                  response_only-are_apart (remove_keys-IsAbsent response_only cipher.raw),
            )
      ]

  -- If an edit of an item gives a body, then the vault is open and has the item and its key, and the
  -- body is the text of an object that says of every key what the sync said of the item, but for the
  -- keys that an edit writes and the keys of a response only. The latter it does not contain, in
  -- either spelling, and its name is the new name, encrypted under the key of the item.
  pub build_update_body_survives :
      IsOther k edited_keys
      → IsApart k response_only
      → build_update_body p qt item_id fields ivs v ≡ answer text
      → (v.locked ≡ false) × Sends p qt v item_id fields ivs k text
  unfolding build_update_body
  build_update_body_survives other apart =
      either Tells v.locked (λ shut e. absurd (cc e))
        (λ unlocked.
          maybe Tells (find_cipher v item_id) (λ missing e. absurd (cc e))
            (λ cipher found.
              either Tells (is_empty fields.name) (λ unnamed e. absurd (cc e))
                (λ named.
                  answered Tells (cipher_key p v cipher)
                    (λ key has_key e.
                      (unlocked, update_body-Sends cipher key other apart found has_key e))
                    (λ f refusal e. absurd (cc e)))))
