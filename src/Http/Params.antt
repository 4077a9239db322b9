-- ===== src/Http/Params.antt =====
-- `Parameters_t` of cpphttphandler.h and cpphttphandler.cc: the form data of a request.
-- `boost::tokenizer` over "&" and `lexical_cast` are parameters.
pub mod Unescape
pub mod Indexed
pub mod Stored
pub mod Order
pub mod Forms
use threadserver.Prelude.{
  ℕ, ◌+◌, ◌-◌, ◌*◌, ◌%◌, ◌^◌, Bool, true, false, Option, none, some, List, [], ◌∷◌, ◌++◌, ◌&&◌,
  ◌||◌, map, Bytes, codes, find, same, substr, substr_from, length, get_elem?, or_else, Result, ok,
  err, ◌>>=◌, or_throw, ltb, leb, ◌==◌, if◌then◌else◌,
}
use threadserver.Prelude.Map.{Map, lookup, push_at}

unfoldable pub unhex : ℕ → Option ℕ
unhex c =
    if leb b'0' c && leb c b'9'
    then some (c - b'0')
    else if leb b'a' c && leb c b'f'
    then some (c - b'a' + 0xa)
    else if leb b'A' c && leb c b'F'
    then some (c - b'A' + 0xa)
    else none

-- `s[i]`, where the position after the end holds the NUL that ends the text
abbrev char_at : Bytes → ℕ → ℕ
char_at s i = or_else (get_elem? s i) 0

-- The byte of two hexadecimal digits; `none` is the exception of `unhex`.
unfoldable pub hex_pair : Bytes → Option ℕ
unfolding unhex
hex_pair s = elim (unhex (char_at s 0)) [
  | none ↦ none
  | some d1 ↦ elim (unhex (char_at s 1)) [ none ↦ none | some d2 ↦ some (d1 * 16 + d2) ]
]

-- What a percent sign at position `i` stands for, if `rest` follows it. The bound `s.size() - 2` is
-- computed in `size_t` and wraps.
unfoldable pub decoded : ℕ → ℕ → ℕ → Bytes → Option ℕ
unfolding hex_pair
decoded size i c rest =
    if c == b'%' && ltb i ((size + 2 ^ 64 - 2) % 2 ^ 64) then hex_pair rest else none

-- The loop of `unescape` from position `i`, over the text from there on.
unfoldable pub unescape_from : ℕ → ℕ → Bytes → Bytes
unfolding decoded
unescape_from size i [] = []
unescape_from size i (c ∷ d1 ∷ d2 ∷ rest) =
    let next = unescape_from size (i + 1) (d1 ∷ d2 ∷ rest) in
    let skip = unescape_from size (i + 3) rest in
    if c == b'+'
    then b' ' ∷ next
    else elim (decoded size i c (d1 ∷ d2 ∷ rest)) [ some x ↦ x ∷ skip | none ↦ c ∷ next ]
unescape_from size i (c ∷ rest) =
    let next = unescape_from size (i + 1) rest in
    if c == b'+'
    then b' ' ∷ next
    else elim (decoded size i c rest) [ some x ↦ x ∷ [] | none ↦ c ∷ next ]

unfoldable pub unescape : Bytes → Bytes
unfolding unescape_from
unescape s = unescape_from (length s) 0 s

abbrev pub Data : Type 0
Data = Map (List Bytes)

-- One round of the loop of `parse`.
unfoldable pub store : Bytes → Data → Data
unfolding unescape
store t stored = elim (find b'=' t) [
  | none ↦ push_at (unescape t) [] stored
  | some at ↦ push_at (unescape (substr t 0 at)) (unescape (substr_from t (at + 1))) stored
]

unfoldable pub store_all : List Bytes → Data → Data
store_all [] stored = stored
store_all (t ∷ ts) stored = store_all ts (store t stored)

-- `parse`; `tokens` is the tokenizer with the separator "&".
unfoldable pub parse : (Bytes → List Bytes) → Bytes → Data → Data
unfolding store_all
parse tokens params stored = store_all (tokens params) stored

-- A failed `lexical_cast`, and `front()` of an empty list.
pub data ParamError : Type 0 where
  bad_cast : (name value : Bytes) → ParamError
  no_front : Bytes → ParamError

module _ {ℓ} {T : Type ℓ} (cast : Bytes → Option T) where
  cast_front : Bytes → List Bytes → Result ParamError (Option T)
  cast_front name [] = err (no_front name)
  cast_front name (v ∷ vs) = do t ← or_throw (cast v) (bad_cast name v); ok (some t)

  unfoldable pub get_first : Bytes → Data → Result ParamError (Option T)
  unfolding cast_front
  get_first name stored = elim (lookup name stored) [
    | none ↦ ok none
    | some values ↦ cast_front name values
  ]

  unfoldable pub cast_all : Bytes → List Bytes → Result ParamError (List T)
  cast_all name [] = ok []
  cast_all name (v ∷ vs) = do
    t ← or_throw (cast v) (bad_cast name v)
    ts ← cast_all name vs
    ok (t ∷ ts)

  unfoldable pub get : Bytes → Data → Result ParamError (List T)
  unfolding cast_all
  get name stored = elim (lookup name stored) [ none ↦ ok [] | some values ↦ cast_all name values ]

unfoldable pub is_true : Bytes → Bool
is_true v = same v (codes "1") || same v (codes "true") || same v (codes "on")

-- A cast to a text keeps it.
unfoldable pub get_first_bool : Bytes → Data → Result ParamError Bool
unfolding get_first is_true
get_first_bool name stored = do
  first ← get_first some name stored
  ok (elim first [ none ↦ false | some v ↦ is_true v ])

unfoldable pub get_bool : Bytes → Data → Result ParamError (List Bool)
unfolding get is_true
get_bool name stored = do values ← get some name stored; ok (map is_true values)
