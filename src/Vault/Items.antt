-- ===== src/Vault/Items.antt =====
-- src/vault/cipheritem.h and the `SyncData` of src/vault/syncparser.h; and how an operation of the
-- vault fails, which is the text of its error message.
use harbour_leyni.Prelude.{String, Bool, List, Bytes, CryptoError, ◌≡◌, refl, ◌⊎◌, inl, inr}
use harbour_leyni.Vault.Json.{ℤ, Fields}

pub data CipherType : Type 0 where
  login secure_note card identity : CipherType

pub record EncryptedLogin : Type 0 where
  pub username : Bytes
  pub password : Bytes
  pub totp : Bytes
  pub uris : List Bytes

pub record EncryptedField : Type 0 where
  pub name : Bytes
  pub value : Bytes
  pub type : ℤ

-- `revision_date` is the text that `QDateTime::fromString` reads.
pub record EncryptedCipher : Type 0 where
  pub id : Bytes
  pub type : CipherType
  pub folder_id : Bytes
  pub organization_id : Bytes
  pub favorite : Bool
  pub revision_date : Bytes
  pub key : Bytes
  pub name : Bytes
  pub notes : Bytes
  pub login : EncryptedLogin
  pub fields : List EncryptedField
  pub card_fields : List EncryptedField
  pub identity_fields : List EncryptedField
  pub raw : Fields

pub record Folder : Type 0 where
  pub id : Bytes
  pub name : Bytes

pub record Collection : Type 0 where
  pub id : Bytes
  pub organization_id : Bytes
  pub name : Bytes

pub record Organization : Type 0 where
  pub id : Bytes
  pub name : Bytes
  pub key : Bytes

pub record DecryptedItem : Type 0 where
  pub id : Bytes
  pub type : CipherType
  pub folder_id : Bytes
  pub organization_id : Bytes
  pub favorite : Bool
  pub name : Bytes
  pub username : Bytes
  pub primary_uri : Bytes
  pub has_totp : Bool
  pub has_password : Bool
  pub has_notes : Bool
  pub has_details : Bool

pub record SyncData : Type 0 where
  pub profile_email : Bytes
  pub profile_key : Bytes
  pub profile_private_key : Bytes
  pub organizations : List Organization
  pub ciphers : List EncryptedCipher
  pub folders : List Folder
  pub collections : List Collection

-- `thrown` is a text with the message of an exception put in for its "%1".
pub data Failure : Type 0 where
  because : String → Failure
  thrown : String → CryptoError → Failure

-- A result, or `false` with the error message set.
pub data Answer {ℓ} (A : Type ℓ) : Type ℓ where
  answer : A → Answer A
  failure : Failure → Answer A

pub Answer-cases {ℓ} :
    {A : Type ℓ} (r : Answer A) → ((a : A) × (r ≡ answer a)) ⊎ ((f : Failure) × (r ≡ failure f))
Answer-cases (answer a) = inl (a, refl)
Answer-cases (failure f) = inr (f, refl)

-- What holds of both cases holds of the choice.
pub answered {ℓ κ μ} :
    {A : Type ℓ} {B : Type κ} (P : B → Type μ) (r : Answer A) {f : A → B} {g : Failure → B}
    → ((a : A) → r ≡ answer a → P (f a))
    → ((e : Failure) → r ≡ failure e → P (g e))
    → P (elim r [ answer a ↦ f a | failure e ↦ g e ])
answered P (answer a) hf hg = hf a refl
answered P (failure e) hf hg = hg e refl
