-- ===== src/Vault/SyncParser/Sound.antt =====
-- What a parsed sync response holds.
use harbour_leyni.Prelude.{
  ℕ, ◌+◌, ◌≤◌, ◌≡◌, refl, ◌&&◌, arith, Bool, true, false, none, not, List, [], ◌∷◌, some, codes,
  All, length, is_empty, if◌then◌else◌,
}
use harbour_leyni.Vault.Json.{Json, object, Fields, to_string, to_int, to_array}
use harbour_leyni.Vault.Qt.{Qt}
use harbour_leyni.Vault.Items.{EncryptedCipher, Folder, Collection, Organization, SyncData}
use harbour_leyni.Vault.SyncParser.{
  cipher_type, value_of, enc_string_of, parse_organizations, parse_folders, parse_collections,
  parse_entry, parse_ciphers,
}

-- A cipher that the vault can show: it has an id and a name, those of its JSON.
pub record IsComplete (c : EncryptedCipher) : Type 0 where
  pub has_id : 1 ≤ length c.id
  pub has_name : 1 ≤ length c.name
  pub same_id : c.id ≡ to_string (value_of c.raw (codes "id"))
  pub same_name : c.name ≡ enc_string_of c.raw (codes "name")
  pub not_trashed : to_string (value_of c.raw (codes "deletedDate")) ≡ []

abbrev pub FolderIsComplete : Folder → Type 0
FolderIsComplete f = (1 ≤ length f.id) × (1 ≤ length f.name)

abbrev pub OrganizationIsComplete : Organization → Type 0
OrganizationIsComplete o = (1 ≤ length o.id) × (1 ≤ length o.key)

abbrev pub CollectionIsComplete : Collection → Type 0
CollectionIsComplete c = (1 ≤ length c.id) × (1 ≤ length c.name)

-- Entries that Qt reads as objects with a text in `deletedDate`.
abbrev pub is_trashed : Json → Bool
is_trashed (object obj) = not (is_empty (to_string (value_of obj (codes "deletedDate"))))
is_trashed _ = false

abbrev pub count_trashed : List Json → ℕ
count_trashed [] = 0
count_trashed (entry ∷ entries) = (if is_trashed entry then 1 else 0) + count_trashed entries

-- Every entry of the cipher array is parsed, counted as skipped, or in the trash.
pub parse_ciphers_accounts :
    (entries : List Json)
    → length (parse_ciphers entries).0 + (parse_ciphers entries).1 + count_trashed entries
      ≡ length entries
unfolding parse_ciphers parse_entry
parse_ciphers_accounts [] = refl
parse_ciphers_accounts (object obj ∷ entries) = ground (arith, parse_ciphers_accounts entries)
parse_ciphers_accounts (_ ∷ entries) = ground (arith, parse_ciphers_accounts entries)

-- An entry that is an item of the vault: an object with no text in `deletedDate`, one of the four
-- types, an id and a name.
abbrev pub is_item : Json → Bool
is_item (object obj) =
    is_empty (to_string (value_of obj (codes "deletedDate")))
    && (elim (cipher_type (to_int (value_of obj (codes "type")))) as (λ o. Bool) [
      | none ↦ false
      | some type ↦ true
    ])
    && not (is_empty (to_string (value_of obj (codes "id"))))
    && not (is_empty (enc_string_of obj (codes "name")))
is_item _ = false

abbrev pub item_entries : List Json → List Json
item_entries [] = []
item_entries (entry ∷ entries) =
    if is_item entry then entry ∷ item_entries entries else item_entries entries

-- The JSON that the ciphers keep.
abbrev pub raws : List EncryptedCipher → List Json
raws [] = []
raws (c ∷ ciphers) = object c.raw ∷ raws ciphers

-- What every accepted sync response holds.
pub record IsSyncData (d : SyncData) : Type 0 where
  pub has_key : 1 ≤ length d.profile_key
  pub ciphers : All IsComplete d.ciphers
  pub folders : All FolderIsComplete d.folders
  pub collections : All CollectionIsComplete d.collections
  pub organizations : All OrganizationIsComplete d.organizations

-- What holds of the data of a response: the ciphers are those of its entries that are items, in their
-- order.
abbrev pub Reads : Fields → SyncData → Type 0
Reads root d =
    IsSyncData d × (raws d.ciphers ≡ item_entries (to_array (value_of root (codes "ciphers"))))

-- The parts of an accepted response, whose ciphers are what `parse_ciphers` gives.
abbrev built : Fields → Fields → SyncData
built root profile = record {
  profile_email = to_string (value_of profile (codes "email"));
  profile_key = enc_string_of profile (codes "key");
  profile_private_key = enc_string_of profile (codes "privateKey");
  organizations = parse_organizations (to_array (value_of profile (codes "organizations")));
  ciphers = (parse_ciphers (to_array (value_of root (codes "ciphers")))).0;
  folders = parse_folders (to_array (value_of root (codes "folders")));
  collections = parse_collections (to_array (value_of root (codes "collections")));
}
