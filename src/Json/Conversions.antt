-- ===== src/Json/Conversions.antt =====
-- The conversions of json.cc from values of the JsonCpp library, which is a parameter.
use threadserver.Prelude.{Bool, Bytes, Result, ok, err, codes, if◌then◌else◌}
use threadserver.Prelude.Int.{ℤ}

pub record JsonCpp (Double : Type 0) : Type 1 where
  pub V : Type 0
  pub is_string : V → Bool
  pub is_int : V → Bool
  pub is_double : V → Bool
  pub is_bool : V → Bool
  pub is_object : V → Bool
  pub is_array : V → Bool
  pub as_string : V → Bytes
  pub as_int : V → ℤ
  pub as_double : V → Double
  pub as_bool : V → Bool
  pub to_styled_string : V → Bytes

-- "Can't get `wanted` from '`styled`'"
pub record CannotGet : Type 0 where
  pub wanted : Bytes
  pub styled : Bytes

module _ {Double : Type 0} (json : JsonCpp Double) where
  open json use {
    V, is_string, is_int, is_double, is_bool, is_object, is_array, as_string, as_int, as_double,
    as_bool, to_styled_string,
  }

  abbrev cannot_get : Bytes → V → CannotGet
  cannot_get wanted value = record { wanted = wanted; styled = to_styled_string value }

  -- `String`, `Int`, `Double`, `Bool`, `Struct` and `Array`
  unfoldable pub get_string : V → Result CannotGet Bytes
  get_string value =
      if is_string value then ok (as_string value) else err (cannot_get (codes "string") value)

  unfoldable pub get_int : V → Result CannotGet ℤ
  get_int value = if is_int value then ok (as_int value) else err (cannot_get (codes "int") value)

  unfoldable pub get_double : V → Result CannotGet Double
  get_double value =
      if is_double value then ok (as_double value) else err (cannot_get (codes "double") value)

  unfoldable pub get_bool : V → Result CannotGet Bool
  get_bool value =
      if is_bool value then ok (as_bool value) else err (cannot_get (codes "bool") value)

  unfoldable pub get_struct : V → Result CannotGet V
  get_struct value = if is_object value then ok value else err (cannot_get (codes "struct") value)

  unfoldable pub get_array : V → Result CannotGet V
  get_array value = if is_array value then ok value else err (cannot_get (codes "array") value)
