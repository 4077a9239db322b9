-- ===== src/Json/Tree/Printing.antt =====
-- The text of an object of a pool is the text of the tree that it shows.
use threadserver.Prelude.{
  ◌≤◌, ℕ, zero, suc, ◌≡◌, refl, ap, ◌∙◌, List, [], ◌∷◌, ◌++◌, Bytes, codes, ok, arith,
}
use mathlib.Core.List.{append_assoc}
use threadserver.Prelude.Map.{Map}
use threadserver.Json.{Ref, Cell, Pool, escape, print_fields, print_items, print_cell, print}
use threadserver.Json.Tree.{
  Tree, null, text, number, truth, object, list, Fields, no_fields, field, Items, no_items, item,
  json, more_fields, more_items, size, size_fields, size_items, Names, Shows, ShowsFields,
  ShowsItems,
}

size_pos : (t : Tree) → 1 ≤ size t
unfolding size
size_pos null = omega arith
size_pos (text s) = omega arith
size_pos (number n) = omega arith
size_pos (truth b) = omega arith
size_pos (object fs) = omega arith
size_pos (list ts) = omega arith

joined_behind : (s u bracket more : Bytes) → u ++ bracket ≡ more → (s ++ u) ++ bracket ≡ s ++ more
joined_behind s u bracket more c = append_assoc s u bracket ∙ ap (λ (r : Bytes). s ++ r) c

behind_name :
    (name s u bracket more : Bytes)
    → u ++ bracket ≡ more
    → (escape name ++ (b':' ∷ (s ++ u))) ++ bracket ≡ escape name ++ (b':' ∷ (s ++ more))
behind_name name s u bracket more c =
    joined_behind (escape name) (b':' ∷ (s ++ u)) bracket _
      (ap (λ (r : Bytes). b':' ∷ r) (joined_behind s u bracket more c))

module _ {Double : Type 0} (show_double : Double → Bytes) (pool : Pool Double) where
  -- The text of a reference is that of its cell.
  print-Names :
      (fuel : ℕ) (value : Ref) (cell : Cell Double)
      → Names pool value cell
      → print show_double (suc fuel) pool value
        ≡ print_cell show_double (print show_double fuel pool) cell
  unfolding print
  print-Names fuel value cell (n, e, h) = rw (e, print, h) refl

  mutual
    unfolding json size Shows print_cell print_fields print_items print

    print-Shows :
        (t : Tree) (fuel : ℕ) (value : Ref)
        → Shows pool t value
        → size t ≤ fuel
        → print show_double fuel pool value ≡ ok (json t)
    print-Shows t zero value h le = absurd (omega (arith, size_pos t))
    print-Shows null (suc fuel) value h le = rw h refl
    print-Shows (text s) (suc fuel) value h le = print-Names fuel value _ h
    print-Shows (number n) (suc fuel) value h le = print-Names fuel value _ h
    print-Shows (truth b) (suc fuel) value h le = print-Names fuel value _ h
    print-Shows (object no_fields) (suc fuel) value (fields, h, e) le =
        print-Names fuel value _ h ∙ rw (e, print_cell) refl
    print-Shows (object (field name t fs)) (suc fuel) value (fields, h, (v, rest, e, p, q)) le =
        let a = print-Shows t fuel v p (omega arith) in
        let (u, b, c) = print_fields-Shows fs fuel rest q (omega arith) in
        print-Names fuel value _ h
        ∙ rw (e, print_cell, print_fields, a, b)
            (ap (λ (r : Bytes). ok (b'{' ∷ r)) (behind_name name (json t) u _ _ c))
    print-Shows (list no_items) (suc fuel) value (items, h, e) le =
        print-Names fuel value _ h ∙ rw (e, print_cell) refl
    print-Shows (list (item t ts)) (suc fuel) value (items, h, (v, rest, e, p, q)) le =
        let a = print-Shows t fuel v p (omega arith) in
        let (u, b, c) = print_items-Shows ts fuel rest q (omega arith) in
        print-Names fuel value _ h
        ∙ rw (e, print_cell, print_items, a, b)
            (ap (λ (r : Bytes). ok (b'[' ∷ r)) (joined_behind (json t) u _ _ c))

    print_fields-Shows :
        (fs : Fields) (fuel : ℕ) (fields : Map Ref)
        → ShowsFields pool fs fields
        → size_fields fs ≤ fuel
        → (u : Bytes) × (print_fields show_double (print show_double fuel pool) (codes ",") fields
            ≡ ok u)
          × (u ++ b'}' ∷ [] ≡ more_fields fs)
    print_fields-Shows no_fields fuel fields e le = ([], rw e refl, refl)
    print_fields-Shows (field name t fs) fuel fields (v, rest, e, p, q) le =
        let a = print-Shows t fuel v p (omega arith) in
        let (u, b, c) = print_fields-Shows fs fuel rest q (omega arith) in
        (
          b',' ∷ (escape name ++ (b':' ∷ (json t ++ u))),
          rw (e, print_fields, a, b) refl,
          ap (λ (r : Bytes). b',' ∷ r) (behind_name name (json t) u _ _ c),
        )

    print_items-Shows :
        (ts : Items) (fuel : ℕ) (items : List Ref)
        → ShowsItems pool ts items
        → size_items ts ≤ fuel
        → (u : Bytes) × (print_items show_double (print show_double fuel pool) (codes ",") items
            ≡ ok u)
          × (u ++ b']' ∷ [] ≡ more_items ts)
    print_items-Shows no_items fuel items e le = ([], rw e refl, refl)
    print_items-Shows (item t ts) fuel items (v, rest, e, p, q) le =
        let a = print-Shows t fuel v p (omega arith) in
        let (u, b, c) = print_items-Shows ts fuel rest q (omega arith) in
        (
          b',' ∷ (json t ++ u),
          rw (e, print_items, a, b) refl,
          ap (λ (r : Bytes). b',' ∷ r) (joined_behind (json t) u _ _ c),
        )

-- The text of an object is the text of the tree that it shows, which does not depend on where in the
-- pool the objects are or which of them are shared; the recursion, as deep as the tree is large, ends.
pub print-json :
    {Double : Type 0} (show_double : Double → Bytes) (pool : Pool Double) (t : Tree) (value : Ref)
    (fuel : ℕ)
    → Shows pool t value
    → size t ≤ fuel
    → print show_double fuel pool value ≡ ok (json t)
print-json show_double pool t value fuel h le = print-Shows show_double pool t fuel value h le
