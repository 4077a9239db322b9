-- ===== src/Tests/Trees.antt =====
-- Examples of the trees that a pool shows.
use threadserver.Prelude.{◌≡◌, refl, some, [], ◌∷◌, ◌++◌, Bytes, codes, length, ok, is_digit, arith}
use threadserver.Prelude.Int.{negsuc}
use threadserver.Json.{at, null_ref, string, int, struct, array, Pool, print}
use threadserver.Json.Tree.{
  Tree, null, text, number, object, list, no_fields, field, no_items, item, json, size, Shows,
}
use threadserver.Json.Tree.Printing.{print-json}
use threadserver.Json.Tree.Reader.{read_value}
use threadserver.Json.Tree.RoundTrip.{read_value-print}

-- A string, an array that has it twice and null, and a struct of the array and a number.
abbrev pool : Pool Bytes
pool =
    string (codes "a\"b")
    ∷ array (at 0 ∷ null_ref ∷ at 0 ∷ [])
    ∷ int (negsuc 6)
    ∷ struct ((codes "k", at 1) ∷ (codes "n", at 2) ∷ [])
    ∷ []

abbrev tree : Tree
tree = object (
    field (codes "k")
      (list (item (text (codes "a\"b")) (item null (item (text (codes "a\"b")) no_items))))
      (field (codes "n") (number (negsuc 6)) no_fields))

shown : Shows pool tree (at 3)
unfolding Shows
shown = (
  _,
  (3, refl, refl),
  (
    at 1,
    _,
    refl,
    (
      _,
      (1, refl, refl),
      (
        at 0,
        _,
        refl,
        (0, refl, refl),
        (null_ref, _, refl, refl, (at 0, [], refl, (0, refl, refl), refl)),
      ),
    ),
    (at 2, [], refl, (2, refl, refl), refl),
  ),
)

print-json_example : print (λ (x : Bytes). x) 9 pool (at 3) ≡ ok (json tree)
unfolding size
print-json_example = print-json (λ (x : Bytes). x) pool tree (at 3) 9 shown (omega arith)

read_value-print_example :
    (s : Bytes) × (print (λ (x : Bytes). x) 9 pool (at 3) ≡ ok s)
    × (read_value (length s) (s ++ codes ";1") ≡ some (tree, codes ";1"))
unfolding size is_digit
read_value-print_example =
    read_value-print (λ (x : Bytes). x) pool tree (at 3) 9 (codes ";1") shown (omega arith) refl
