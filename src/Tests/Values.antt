-- ===== src/Tests/Values.antt =====
-- Examples of JSON values.
use threadserver.Prelude.{ℕ, ◌≡◌, some, [], ◌∷◌, ◌++◌, Bytes, codes, ◌↔◌, All, arith}
use threadserver.Prelude.Int.{pos}
use threadserver.Json.{escape, at, int, array, allocate, append, push_back, print}
use threadserver.Json.Escape.{read_string, Printable, Carried, read_string-escape, escape-Printable}
use threadserver.Json.Print.{IsAcyclic, Prints, print-Prints}
use threadserver.Json.Building.{allocate-IsAcyclic, append-IsAcyclic}

read_string-escape_example :
    read_string (escape (codes "a\"/\n") ++ codes "\"b") ≡ some (codes "a\"/\n", codes "\"b")
read_string-escape_example = read_string-escape (codes "a\"/\n") (codes "\"b")

escape-Printable_example : Printable (escape (1 ∷ b'a' ∷ [])) ↔ All Carried (1 ∷ b'a' ∷ [])
escape-Printable_example = escape-Printable (1 ∷ b'a' ∷ [])

abbrev pub rank : ℕ → ℕ
rank n = n

empty-IsAcyclic : IsAcyclic {Double = Bytes} rank []
empty-IsAcyclic = record { parts = λ n cell e. ground arith }

one-IsAcyclic : IsAcyclic {Double = Bytes} rank (int (pos 3) ∷ [])
unfolding allocate
one-IsAcyclic = allocate-IsAcyclic rank (int (pos 3)) [] empty-IsAcyclic tt

-- 3, and an array that is still empty.
two-IsAcyclic : IsAcyclic {Double = Bytes} rank (int (pos 3) ∷ array [] ∷ [])
unfolding allocate
two-IsAcyclic = allocate-IsAcyclic rank (array []) (int (pos 3) ∷ []) one-IsAcyclic tt

append-IsAcyclic_example :
    IsAcyclic {Double = Bytes} rank
      (append Bytes 1 (codes "a") (at 0) (int (pos 3) ∷ array [] ∷ []))
    × IsAcyclic {Double = Bytes} rank (push_back Bytes 1 (at 0) (int (pos 3) ∷ array [] ∷ []))
append-IsAcyclic_example =
    append-IsAcyclic rank 1 (codes "a") (at 0) (int (pos 3) ∷ array [] ∷ []) two-IsAcyclic
      (omega arith, omega arith)

print-Prints_example :
    Prints (λ (x : Bytes). x) rank (print (λ (x : Bytes). x) 3 (int (pos 3) ∷ array [] ∷ []) (at 1))
print-Prints_example =
    print-Prints (λ (x : Bytes). x) rank (int (pos 3) ∷ array [] ∷ []) two-IsAcyclic 2 (at 1)
      (omega arith, omega arith)
