-- ===== src/Vault/Json.antt =====
-- JSON values as the Qt classes hold them, and the readers that src/vault calls. A `QString` is its
-- UTF-8 bytes. A reader gives Qt's default where the value has another type.
use harbour_leyni.Prelude.{ℕ, Bool, true, false, List, [], ◌∷◌, Bytes, bytes_equal, if◌then◌else◌}

-- `int`: `negsuc n` is -(n + 1).
pub data ℤ : Type 0 where
  pos negsuc : ℕ → ℤ

-- `undefined` is what a missing key gives, `fraction` a number that no `int` is.
mutual
  pub data Json : Type 0 where
    undefined null fraction : Json
    boolean : Bool → Json
    number : ℤ → Json
    string : Bytes → Json
    array : Items → Json
    object : Fields → Json

  pub data Items : Type 0 where
    nil : Items
    cons : Json → Items → Items

  pub data Fields : Type 0 where
    end : Fields
    field : Bytes → Json → Fields → Fields

unfoldable pub contains : Fields → Bytes → Bool
contains end key = false
contains (field k v fields) key = if bytes_equal k key then true else contains fields key

unfoldable pub value : Fields → Bytes → Json
value end key = undefined
value (field k v fields) key = if bytes_equal k key then v else value fields key

abbrev pub to_string : Json → Bytes
to_string (string s) = s
to_string _ = []

-- `toInt(0)`
abbrev pub to_int : Json → ℤ
to_int (number n) = n
to_int _ = pos 0

-- `toInt(d)`
abbrev pub to_int_or : ℤ → Json → ℤ
to_int_or d (number n) = n
to_int_or d _ = d

-- `QJsonObject::insert` and `QJsonObject::remove`, in the order of the fields that are there: `insert`
-- replaces a value.
unfoldable pub insert_field : Bytes → Json → Fields → Fields
insert_field key v end = field key v end
insert_field key v (field k w fields) =
    let rest = insert_field key v fields in
    if bytes_equal k key then field k v fields else field k w rest

unfoldable pub remove_field : Bytes → Fields → Fields
remove_field key end = end
remove_field key (field k w fields) =
    let rest = remove_field key fields in if bytes_equal k key then rest else field k w rest

-- `toBool(false)`
abbrev pub to_bool : Json → Bool
to_bool (boolean b) = b
to_bool _ = false

abbrev pub to_object : Json → Fields
to_object (object fields) = fields
to_object _ = end

abbrev pub items : Items → List Json
items nil = []
items (cons v rest) = v ∷ items rest

-- The entries, if the value is an array.
abbrev pub to_array : Json → List Json
to_array (array vs) = items vs
to_array _ = []
