-- ===== src/Json/Tree/Reader.antt =====
-- A reader of JSON texts without spaces, exponents and fractions, as RFC 8259 has them.
use mathlib.Core.Option
use threadserver.Prelude.{
  ℕ, zero, suc, Bool, true, false, Option, none, some, [], ◌∷◌, Bytes, codes, ◌==◌, if◌then◌else◌,
  is_digit, read_digits,
}
use threadserver.Prelude.Int.{ℤ, pos, negsuc}
use threadserver.Json.Escape.{read_string}
use threadserver.Json.Tree.{
  Tree, null, text, number, truth, object, list, Fields, no_fields, field, Items, no_items, item,
}

-- What a value can begin with.
pub data Token : Type 0 where
  brace bracket quote minus digit letter_n letter_t letter_f other : Token

unfoldable pub token : ℕ → Token
token c =
    if c == b'{'
    then brace
    else if c == b'['
    then bracket
    else if c == b'"'
    then quote
    else if c == b'-'
    then minus
    else if is_digit c
    then digit
    else if c == b'n'
    then letter_n
    else if c == b't'
    then letter_t
    else if c == b'f'
    then letter_f
    else other

abbrev pub expect : {A : Type 0} → A → Bytes → Bytes → Option (A × Bytes)
expect a [] s = some (a, s)
expect a (c ∷ word) [] = none
expect a (c ∷ word) (d ∷ s) = let rest = expect a word s in if c == d then rest else none

abbrev pub negative : ℕ → ℤ
negative zero = pos zero
negative (suc m) = negsuc m

abbrev pub as_number : (ℕ → ℤ) → ℕ × Bytes → Option (Tree × Bytes)
as_number sign (m, rest) = some (number (sign m), rest)

abbrev pub closes : ℕ → Bytes → Bool
closes c [] = false
closes c (d ∷ s) = d == c

abbrev pub tail : Bytes → Bytes
tail [] = []
tail (c ∷ s) = s

-- An element, and then what `more` reads.
abbrev pub element :
    Option (Tree × Bytes) → (Bytes → Option (Items × Bytes)) → Option (Items × Bytes)
element none more = none
element (some (t, rest)) more = Option.map (λ r. (item t r.0, r.1)) (more rest)

abbrev pub valued :
    Bytes → Option (Tree × Bytes) → (Bytes → Option (Fields × Bytes)) → Option (Fields × Bytes)
valued name none more = none
valued name (some (t, rest)) more = Option.map (λ r. (field name t r.0, r.1)) (more rest)

-- A name, a colon, a value, and then what `more` reads.
abbrev pub member :
    Option (Bytes × Bytes)
    → (Bytes → Option (Tree × Bytes))
    → (Bytes → Option (Fields × Bytes))
    → Option (Fields × Bytes)
member none value more = none
member (some (name, rest)) value more = elim (closes b':' rest) [
  | true ↦ valued name (value (tail rest)) more
  | false ↦ none
]

unfoldable mutual
  unfolding token

  pub read_value : ℕ → Bytes → Option (Tree × Bytes)
  read_value zero s = none
  read_value (suc fuel) [] = none
  read_value (suc fuel) (c ∷ s) = elim (token c) [
    | brace ↦ elim (closes b'}' s) [
      | true ↦ some (object no_fields, tail s)
      | false ↦
          Option.map (λ r. (object r.0, r.1))
            (member (read_string s) (read_value fuel) (read_more_fields fuel))
    ]
    | bracket ↦ elim (closes b']' s) [
      | true ↦ some (list no_items, tail s)
      | false ↦
          Option.map (λ r. (list r.0, r.1)) (element (read_value fuel s) (read_more_items fuel))
    ]
    | quote ↦ Option.map (λ r. (text r.0, r.1)) (read_string (c ∷ s))
    | minus ↦ as_number negative (read_digits 0 s)
    | digit ↦ as_number pos (read_digits 0 (c ∷ s))
    | letter_n ↦ expect null (codes "ull") s
    | letter_t ↦ expect (truth true) (codes "rue") s
    | letter_f ↦ expect (truth false) (codes "alse") s
    | other ↦ none
  ]

  pub read_more_fields : ℕ → Bytes → Option (Fields × Bytes)
  read_more_fields zero s = none
  read_more_fields (suc fuel) s = elim (closes b'}' s) [
    | true ↦ some (no_fields, tail s)
    | false ↦ elim (closes b',' s) [
      | true ↦ member (read_string (tail s)) (read_value fuel) (read_more_fields fuel)
      | false ↦ none
    ]
  ]

  pub read_more_items : ℕ → Bytes → Option (Items × Bytes)
  read_more_items zero s = none
  read_more_items (suc fuel) s = elim (closes b']' s) [
    | true ↦ some (no_items, tail s)
    | false ↦ elim (closes b',' s) [
      | true ↦ element (read_value fuel (tail s)) (read_more_items fuel)
      | false ↦ none
    ]
  ]
