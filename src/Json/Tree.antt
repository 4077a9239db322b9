-- ===== src/Json/Tree.antt =====
-- The values of a pool without their addresses: the trees that JSON stands for, their texts, and when
-- an object of a pool shows one. A `double` shows none, since its text is another library's.
pub mod Printing
pub mod Reader
pub mod RoundTrip
pub mod Existing
use threadserver.Prelude.{
  ℕ, ◌+◌, ◌≤◌, ◌≡◌, refl, Bool, some, List, [], ◌∷◌, ◌++◌, Bytes, codes, length, length-append,
  get_elem?, if◌then◌else◌, arith,
}
use threadserver.Prelude.Int.{ℤ}
use threadserver.Prelude.Map.{Map}
use threadserver.Json.{
  Ref, null_ref, at, Cell, string, int, bool, struct, array, Pool, escape, show_int,
}

mutual
  pub data Tree : Type 0 where
    null : Tree
    text : Bytes → Tree
    number : ℤ → Tree
    truth : Bool → Tree
    object : Fields → Tree
    list : Items → Tree

  pub data Fields : Type 0 where
    no_fields : Fields
    field : (name : Bytes) → Tree → Fields → Fields

  pub data Items : Type 0 where
    no_items : Items
    item : Tree → Items → Items

-- The text of a tree; `more` is what follows an element, up to the closing bracket.
unfoldable mutual
  pub json : Tree → Bytes
  json null = codes "null"
  json (text s) = escape s
  json (number n) = show_int n
  json (truth b) = if b then codes "true" else codes "false"
  json (object no_fields) = codes "{}"
  json (object (field name t fs)) = b'{' ∷ (escape name ++ (b':' ∷ (json t ++ more_fields fs)))
  json (list no_items) = codes "[]"
  json (list (item t ts)) = b'[' ∷ (json t ++ more_items ts)

  pub more_fields : Fields → Bytes
  more_fields no_fields = b'}' ∷ []
  more_fields (field name t fs) = b',' ∷ (escape name ++ (b':' ∷ (json t ++ more_fields fs)))

  pub more_items : Items → Bytes
  more_items no_items = b']' ∷ []
  more_items (item t ts) = b',' ∷ (json t ++ more_items ts)

unfoldable mutual
  pub size : Tree → ℕ
  size (object fs) = 1 + size_fields fs
  size (list ts) = 1 + size_items ts
  size _ = 1

  pub size_fields : Fields → ℕ
  size_fields no_fields = 1
  size_fields (field name t fs) = size t + size_fields fs

  pub size_items : Items → ℕ
  size_items no_items = 1
  size_items (item t ts) = size t + size_items ts

module _ {Double : Type 0} (pool : Pool Double) where
  -- The reference is to an object of the pool that is this cell.
  abbrev pub Names : Ref → Cell Double → Type 0
  Names value cell = (n : ℕ) × (value ≡ at n) × (get_elem? pool n ≡ some cell)

  unfoldable mutual
    pub Shows : Tree → Ref → Type 0
    Shows null value = value ≡ null_ref
    Shows (text s) value = Names value (string s)
    Shows (number n) value = Names value (int n)
    Shows (truth b) value = Names value (bool b)
    Shows (object fs) value =
        (fields : Map Ref) × Names value (struct fields) × ShowsFields fs fields
    Shows (list ts) value = (items : List Ref) × Names value (array items) × ShowsItems ts items

    pub ShowsFields : Fields → Map Ref → Type 0
    ShowsFields no_fields fields = fields ≡ []
    ShowsFields (field name t fs) fields =
        (value : Ref) × (rest : Map Ref) × (fields ≡ (name, value) ∷ rest)
        × Shows t value
        × ShowsFields fs rest

    pub ShowsItems : Items → List Ref → Type 0
    ShowsItems no_items items = items ≡ []
    ShowsItems (item t ts) items =
        (value : Ref) × (rest : List Ref) × (items ≡ value ∷ rest)
        × Shows t value
        × ShowsItems ts rest
