-- ===== src/Json/Tree/RoundTrip.antt =====
-- The reader takes back every tree from its text.

use mathlib.Core.List.{append_assoc}
use threadserver.Prelude.{
  ℕ, zero, suc, ◌≤◌, ◌≡◌, refl, sym, ap, ◌∙◌, true, false, some, [], ◌∷◌, ◌++◌, Bytes, length,
  length-append, ◌==◌, ok, is_digit, decimal, decimal-cons, read_digits, read_digits-decimal, arith,
}
use threadserver.Prelude.Int.{pos, negsuc}
use threadserver.Json.{Ref, Pool, escape, show_int, print}
use threadserver.Json.Escape.{read_string, read_string-escape, escape-quote}
use threadserver.Json.Tree.{
  Tree, null, text, number, truth, object, list, Fields, no_fields, field, Items, no_items, item,
  json, more_fields, more_items, size, Shows,
}
use threadserver.Json.Tree.Printing.{print-json}
use threadserver.Json.Tree.Reader.{
  digit, token, closes, element, member, read_value, read_more_fields, read_more_items,
}

-- A numeral in front would run on into it.
abbrev pub Stops : Bytes → Type 0
Stops [] = Unit
Stops (c ∷ s) = is_digit c ≡ false

read_digits-Stops : (m : ℕ) (rest : Bytes) → Stops rest → read_digits m rest ≡ (m, rest)
unfolding read_digits
read_digits-Stops m [] h = refl
read_digits-Stops m (c ∷ s) h = rw h refl

token-digit : (c : ℕ) → is_digit c ≡ true → token c ≡ digit
unfolding token is_digit
token-digit c h = ground arith

-- No text begins with a closing bracket.
opens : (t : Tree) → (c : ℕ) × (s : Bytes) × (json t ≡ c ∷ s) × ((c == b']') ≡ false)
unfolding json show_int is_digit
opens null = (_, _, refl, refl)
opens (text s) = let (t, e) = escape-quote s in (_, t, e, refl)
opens (number (pos m)) = let (c, s, e, d) = decimal-cons m in (c, s, e, ground arith)
opens (number (negsuc m)) = (_, _, refl, refl)
opens (truth true) = (_, _, refl, refl)
opens (truth false) = (_, _, refl, refl)
opens (object no_fields) = (_, _, refl, refl)
opens (object (field name t fs)) = (_, _, refl, refl)
opens (list no_items) = (_, _, refl, refl)
opens (list (item t ts)) = (_, _, refl, refl)

read_value-decimal :
    (m fuel : ℕ) (rest : Bytes)
    → Stops rest
    → read_value (suc fuel) (decimal m ++ rest) ≡ some (number (pos m), rest)
unfolding read_value
read_value-decimal m fuel rest h =
    let (c, s, e, d) = decimal-cons m in
    let read : read_digits 0 (c ∷ (s ++ rest)) ≡ (m, rest) =
      sym (ap (λ (r : Bytes). read_digits 0 (r ++ rest)) e)
      ∙ read_digits-decimal m rest
      ∙ read_digits-Stops m rest h in
    rw (e, read_value, token-digit c d, read) refl

read_value-negative :
    (m fuel : ℕ) (rest : Bytes)
    → Stops rest
    → read_value (suc fuel) (b'-' ∷ (decimal (suc m) ++ rest)) ≡ some (number (negsuc m), rest)
unfolding read_value
read_value-negative m fuel rest h =
    rw (read_digits-decimal (suc m) rest, read_digits-Stops (suc m) rest h) refl

read_value-text :
    (s : Bytes) (fuel : ℕ) (rest : Bytes)
    → read_value (suc fuel) (escape s ++ rest) ≡ some (text s, rest)
unfolding read_value
read_value-text s fuel rest =
    let (t, e) = escape-quote s in
    let read : read_string (b'"' ∷ (t ++ rest)) ≡ some (s, rest) =
      sym (ap (λ (r : Bytes). read_string (r ++ rest)) e) ∙ read_string-escape s rest in
    rw (e, read_value, read) refl

length-json_pos : (t : Tree) → 1 ≤ length (json t)
length-json_pos t = let (c, s, e, d) = opens t in rw e (omega arith)

closes-json : (t : Tree) (more rest : Bytes) → closes b']' ((json t ++ more) ++ rest) ≡ false
closes-json t more rest = let (c, s, e, d) = opens t in rw e d

closes-escape : (name more rest : Bytes) → closes b'}' ((escape name ++ more) ++ rest) ≡ false
closes-escape name more rest = let (t, e) = escape-quote name in rw e refl

Stops-more_items : (ts : Items) (rest : Bytes) → Stops (more_items ts ++ rest)
unfolding more_items is_digit
Stops-more_items no_items rest = refl
Stops-more_items (item t ts) rest = refl

Stops-more_fields : (fs : Fields) (rest : Bytes) → Stops (more_fields fs ++ rest)
unfolding more_fields is_digit
Stops-more_fields no_fields rest = refl
Stops-more_fields (field name t fs) rest = refl

element_lem :
    (t : Tree) (ts : Items) (s more rest : Bytes) (fuel : ℕ)
    → read_value fuel (s ++ (more ++ rest)) ≡ some (t, more ++ rest)
    → read_more_items fuel (more ++ rest) ≡ some (ts, rest)
    → element (read_value fuel ((s ++ more) ++ rest)) (read_more_items fuel)
      ≡ some (item t ts, rest)
element_lem t ts s more rest fuel first others = rw (append_assoc s more rest, first, others) refl

member_lem :
    (name : Bytes) (t : Tree) (fs : Fields) (s more rest : Bytes) (fuel : ℕ)
    → read_value fuel (s ++ (more ++ rest)) ≡ some (t, more ++ rest)
    → read_more_fields fuel (more ++ rest) ≡ some (fs, rest)
    → member
        (read_string ((escape name ++ (b':' ∷ (s ++ more))) ++ rest))
        (read_value fuel)
        (read_more_fields fuel)
      ≡ some (field name t fs, rest)
member_lem name t fs s more rest fuel first others =
    rw
      (
        append_assoc (escape name) (b':' ∷ (s ++ more)) rest,
        read_string-escape name (b':' ∷ ((s ++ more) ++ rest)),
        append_assoc s more rest,
        first,
        others,
      )
      refl

read_value-object :
    (s : Bytes) (fuel : ℕ) (fs : Fields) (rest : Bytes)
    → closes b'}' s ≡ false
    → member (read_string s) (read_value fuel) (read_more_fields fuel) ≡ some (fs, rest)
    → read_value (suc fuel) (b'{' ∷ s) ≡ some (object fs, rest)
unfolding read_value
read_value-object s fuel fs rest open_brace e = rw (open_brace, read_value, e) refl

read_value-list :
    (s : Bytes) (fuel : ℕ) (ts : Items) (rest : Bytes)
    → closes b']' s ≡ false
    → element (read_value fuel s) (read_more_items fuel) ≡ some (ts, rest)
    → read_value (suc fuel) (b'[' ∷ s) ≡ some (list ts, rest)
unfolding read_value
read_value-list s fuel ts rest open_bracket e = rw (open_bracket, read_value, e) refl

fits_field :
    (name : Bytes) (t : Tree) (fs : Fields) (fuel : ℕ)
    → length (b',' ∷ (escape name ++ (b':' ∷ (json t ++ more_fields fs)))) ≤ suc fuel
    → (length (json t) ≤ fuel) × (length (more_fields fs) ≤ fuel)
fits_field name t fs fuel le =
    let name_and = length-append (escape name) (b':' ∷ (json t ++ more_fields fs)) in
    let value_and = length-append (json t) (more_fields fs) in (omega arith, omega arith)

fits_item :
    (t : Tree) (ts : Items) (fuel : ℕ)
    → length (b',' ∷ (json t ++ more_items ts)) ≤ suc fuel
    → (length (json t) ≤ fuel) × (length (more_items ts) ≤ fuel)
fits_item t ts fuel le =
    let value_and = length-append (json t) (more_items ts) in (omega arith, omega arith)

mutual
  unfolding json read_value more_fields show_int is_digit

  read_value-json :
      (t : Tree) (fuel : ℕ) (rest : Bytes)
      → Stops rest
      → length (json t) ≤ fuel
      → read_value fuel (json t ++ rest) ≡ some (t, rest)
  read_value-json t zero rest h le = absurd (omega (arith, length-json_pos t))
  read_value-json null (suc fuel) rest h le = refl
  read_value-json (text s) (suc fuel) rest h le = read_value-text s fuel rest
  read_value-json (number (pos m)) (suc fuel) rest h le = read_value-decimal m fuel rest h
  read_value-json (number (negsuc m)) (suc fuel) rest h le = read_value-negative m fuel rest h
  read_value-json (truth true) (suc fuel) rest h le = refl
  read_value-json (truth false) (suc fuel) rest h le = refl
  read_value-json (object no_fields) (suc fuel) rest h le = refl
  read_value-json (object (field name t fs)) (suc fuel) rest h le =
      read_value-object _ fuel _ rest (closes-escape name (b':' ∷ (json t ++ more_fields fs)) rest)
        (read_more_fields-json (field name t fs) (suc fuel) rest le)
  read_value-json (list no_items) (suc fuel) rest h le = refl
  read_value-json (list (item t ts)) (suc fuel) rest h le =
      read_value-list _ fuel _ rest (closes-json t (more_items ts) rest)
        (read_more_items-json (item t ts) (suc fuel) rest le)

  read_more_fields-json :
      (fs : Fields) (fuel : ℕ) (rest : Bytes)
      → length (more_fields fs) ≤ fuel
      → read_more_fields fuel (more_fields fs ++ rest) ≡ some (fs, rest)
  read_more_fields-json no_fields zero rest le = absurd (omega arith)
  read_more_fields-json (field name t fs) zero rest le = absurd (omega arith)
  read_more_fields-json no_fields (suc fuel) rest le = refl
  read_more_fields-json (field name t fs) (suc fuel) rest le =
      let (fits, left) = fits_field name t fs fuel le in
      member_lem name t fs (json t) (more_fields fs) rest fuel
        (read_value-json t fuel (more_fields fs ++ rest) (Stops-more_fields fs rest) fits)
        (read_more_fields-json fs fuel rest left)

  read_more_items-json :
      (ts : Items) (fuel : ℕ) (rest : Bytes)
      → length (more_items ts) ≤ fuel
      → read_more_items fuel (more_items ts ++ rest) ≡ some (ts, rest)
  read_more_items-json no_items zero rest le = absurd (omega arith)
  read_more_items-json (item t ts) zero rest le = absurd (omega arith)
  read_more_items-json no_items (suc fuel) rest le = refl
  read_more_items-json (item t ts) (suc fuel) rest le =
      let (fits, left) = fits_item t ts fuel le in
      element_lem t ts (json t) (more_items ts) rest fuel
        (read_value-json t fuel (more_items ts ++ rest) (Stops-more_items ts rest) fits)
        (read_more_items-json ts fuel rest left)

-- What is printed of an object of a pool that shows a tree is, with something behind it that is no
-- digit, read back as that tree: no member of a struct and no item of an array is lost, added or moved,
-- and no text in it, whatever bytes it has, runs on or ends early.
pub read_value-print :
    {Double : Type 0} (show_double : Double → Bytes) (pool : Pool Double) (t : Tree) (value : Ref)
    (fuel : ℕ) (rest : Bytes)
    → Shows pool t value
    → size t ≤ fuel
    → Stops rest
    → (s : Bytes) × (print show_double fuel pool value ≡ ok s)
      × (read_value (length s) (s ++ rest) ≡ some (t, rest))
read_value-print show_double pool t value fuel rest h le stops = (
  json t,
  print-json show_double pool t value fuel h le,
  read_value-json t (length (json t)) rest stops (omega arith),
)
