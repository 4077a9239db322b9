-- ===== src/Json.antt =====
-- src/handlers/cpphttphandler/json.cc and include/threadserver/handlers/cpphttphandler/json.h: the
-- values that a method builds in a pool, and their text.
-- The values are objects on the heap, owned by the pool, that name one another by address; a
-- `double` is of a type `Double` with its printed form as a parameter.
pub mod Escape
pub mod Print
pub mod Building
pub mod Order
pub mod Conversions
pub mod Tree
use threadserver.Prelude.{
  ℕ, zero, suc, ◌+◌, Bool, true, false, Option, none, some, List, [], ◌∷◌, ◌++◌, ◌||◌, Bytes, codes,
  length, get_elem?, Result, ok, err, ◌>>=◌, ◌==◌, if◌then◌else◌, decimal,
}
use threadserver.Prelude.Int.{ℤ, pos, negsuc}
use threadserver.Prelude.Map.{Map, assign}

-- What `String_t::escape` appends for one character.
unfoldable pub escape_char : ℕ → Bytes
escape_char c =
    if c == 10
    then codes "\\n"
    else if c == 13
    then codes "\\r"
    else if c == 8
    then codes "\\b"
    else if c == 12
    then codes "\\f"
    else if c == 9
    then codes "\\t"
    else if c == b'"' || c == 92 || c == b'/'
    then 92 ∷ c ∷ []
    else c ∷ []

-- The loop, with `result` as it stands.
unfoldable pub escape_loop : Bytes → Bytes → Bytes
unfolding escape_char
escape_loop result [] = result
escape_loop result (c ∷ s) = escape_loop (result ++ escape_char c) s

unfoldable pub escape : Bytes → Bytes
unfolding escape_loop
escape s = escape_loop (b'"' ∷ []) s ++ b'"' ∷ []

-- A `Value_t &`: the pool's own `null`, or the n-th of its `values`.
pub data Ref : Type 0 where
  null_ref : Ref
  at : ℕ → Ref

-- `getType`
pub data Kind : Type 0 where
  null_type string_type int_type double_type bool_type struct_type array_type : Kind

module _ (Double : Type 0) where
  pub data Cell : Type 0 where
    string : Bytes → Cell
    int : ℤ → Cell
    double : Double → Cell
    bool : Bool → Cell
    struct : Map Ref → Cell
    array : List Ref → Cell

  -- `Pool_t`; `null` needs no state
  abbrev pub Pool : Type 0
  Pool = List Cell

  -- `values.push_back(...)`: String, Int, Double, Bool, Struct and Array, by the cell
  unfoldable pub allocate : Cell → Pool → Ref × Pool
  allocate cell pool = (at (length pool), pool ++ cell ∷ [])

  -- The object behind a reference; `none` is a reference that no object of the pool has.
  unfoldable pub deref : Pool → Ref → Option (Option Cell)
  deref pool null_ref = some none
  deref pool (at n) = elim (get_elem? pool n) [ none ↦ none | some cell ↦ some (some cell) ]

  unfoldable pub kind_of : Option Cell → Kind
  kind_of none = null_type
  kind_of (some (string s)) = string_type
  kind_of (some (int n)) = int_type
  kind_of (some (double x)) = double_type
  kind_of (some (bool x)) = bool_type
  kind_of (some (struct fields)) = struct_type
  kind_of (some (array items)) = array_type

  -- `isNull`
  unfoldable pub is_null : Option Cell → Bool
  unfolding kind_of
  is_null cell = elim (kind_of cell) [ null_type ↦ true | _ ↦ false ]

  unfoldable pub update : (Cell → Cell) → ℕ → Pool → Pool
  update f n [] = []
  update f zero (cell ∷ pool) = f cell ∷ pool
  update f (suc n) (cell ∷ pool) = cell ∷ update f n pool

  -- `Struct_t::append` on the n-th value: `data[name] = &value`
  append_field : Bytes → Ref → Cell → Cell
  append_field name value (struct fields) = struct (assign name value fields)
  append_field name value cell = cell

  unfoldable pub append : ℕ → Bytes → Ref → Pool → Pool
  unfolding append_field update
  append n name value pool = update (append_field name value) n pool

  -- `Array_t::push_back` on the n-th value
  push_item : Ref → Cell → Cell
  push_item value (array items) = array (items ++ value ∷ [])
  push_item value cell = cell

  unfoldable pub push_back : ℕ → Ref → Pool → Pool
  unfolding push_item update
  push_back n value pool = update (push_item value) n pool

-- Why a value has no text: its printing does not end, or it names an object that is not there.
pub data PrintError : Type 0 where
  out_of_fuel dangling : PrintError

-- `boost::lexical_cast<std::string>(long long)`
unfoldable pub show_int : ℤ → Bytes
show_int (pos n) = decimal n
show_int (negsuc n) = b'-' ∷ decimal (suc n)

module _ {Double : Type 0} (show_double : Double → Bytes) where
  -- The loops of `Struct_t` and `Array_t`, given how to print a value; `comma` as it stands.
  unfoldable pub print_fields :
      (Ref → Result PrintError Bytes) → Bytes → Map Ref → Result PrintError Bytes
  unfolding escape
  print_fields print comma [] = ok []
  print_fields print comma ((name, value) ∷ fields) = do
    text ← print value
    rest ← print_fields print (codes ",") fields
    ok (comma ++ (escape name ++ (b':' ∷ (text ++ rest))))

  unfoldable pub print_items :
      (Ref → Result PrintError Bytes) → Bytes → List Ref → Result PrintError Bytes
  print_items print comma [] = ok []
  print_items print comma (value ∷ items) = do
    text ← print value
    rest ← print_items print (codes ",") items
    ok (comma ++ (text ++ rest))

  -- `operator std::string` of each class
  unfoldable pub print_cell :
      (Ref → Result PrintError Bytes) → Cell Double → Result PrintError Bytes
  unfolding escape show_int print_fields print_items
  print_cell print (string s) = ok (escape s)
  print_cell print (int n) = ok (show_int n)
  print_cell print (double x) = ok (show_double x)
  print_cell print (bool x) = ok (if x then codes "true" else codes "false")
  print_cell print (struct fields) = do
    text ← print_fields print [] fields
    ok (b'{' ∷ (text ++ b'}' ∷ []))
  print_cell print (array items) = do
    text ← print_items print [] items
    ok (b'[' ∷ (text ++ b']' ∷ []))

  -- One unit of fuel for each value on the way down.
  unfoldable pub print : ℕ → Pool Double → Ref → Result PrintError Bytes
  unfolding print_cell
  print zero pool value = err out_of_fuel
  print (suc fuel) pool null_ref = ok (codes "null")
  print (suc fuel) pool (at n) = elim (get_elem? pool n) [
    | none ↦ err dangling
    | some cell ↦ print_cell (print fuel pool) cell
  ]
