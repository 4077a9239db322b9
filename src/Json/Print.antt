-- ===== src/Json/Print.antt =====
-- When the printing of a value ends: `operator std::string` over the objects of a pool.
use threadserver.Prelude.{
  ℕ, zero, suc, ◌≤◌, ◌<◌, ◌≡◌, refl, some, List, [], ◌∷◌, ◌++◌, All, arith, Bytes, codes, length,
  get_elem?, Result, ok, err,
}
use threadserver.Prelude.Map.{Map, assign}
use threadserver.Json.{
  Ref, null_ref, at, Cell, string, int, double, bool, struct, array, Pool, PrintError, out_of_fuel,
  escape, append, print_fields, print_items, print_cell, print,
}

-- A reference within the pool whose rank is below `bound`.
abbrev pub Below : (ℕ → ℕ) → (size bound : ℕ) → Ref → Type 0
Below rank size bound null_ref = Unit
Below rank size bound (at n) = (n < size) × (rank n < bound)

module _ {Double : Type 0} (rank : ℕ → ℕ) where
  abbrev pub Parts : (size bound : ℕ) → Cell Double → Type 0
  Parts size bound (struct fields) = All (λ field. Below rank size bound field.1) fields
  Parts size bound (array items) = All (Below rank size bound) items
  Parts size bound cell = Unit

  -- Every object names objects of the pool alone, and those of a lower rank: nothing is, through
  -- any number of steps, a part of itself.
  pub record IsAcyclic (pool : Pool Double) : Type 0 where
    pub parts :
        (n : ℕ) (cell : Cell Double)
        → get_elem? pool n ≡ some cell
        → Parts (length pool) (rank n) cell

pub Below-mono :
    (rank : ℕ → ℕ) {size size' bound bound' : ℕ} (value : Ref)
    → size ≤ size'
    → bound ≤ bound'
    → Below rank size bound value
    → Below rank size' bound' value
Below-mono rank null_ref p q h = tt
Below-mono rank (at n) p q h = omega arith

pub get_elem?-lt {ℓ} :
    {A : Type ℓ} (xs : List A) (n : ℕ) → n < length xs → (x : A) × (get_elem? xs n ≡ some x)
get_elem?-lt [] n h = absurd (omega arith)
get_elem?-lt (x ∷ xs) zero h = (x, refl)
get_elem?-lt (x ∷ xs) (suc n) h = get_elem?-lt xs n (omega arith)

module _ {Double : Type 0} (show_double : Double → Bytes) (rank : ℕ → ℕ) where
  abbrev pub Prints : Result PrintError Bytes → Type 0
  Prints r = (text : Bytes) × (r ≡ ok text)

  print_fields-Prints :
      (f : Ref → Result PrintError Bytes) (size bound : ℕ) (comma : Bytes) (fields : Map Ref)
      → ((value : Ref) → Below rank size bound value → Prints (f value))
      → All (λ field. Below rank size bound field.1) fields
      → Prints (print_fields show_double f comma fields)
  unfolding print_fields
  print_fields-Prints f size bound comma [] good h = ([], refl)
  print_fields-Prints f size bound comma ((name, value) ∷ fields) good (p, h) =
      let (text, e) = good value p in
      let (rest, d) = print_fields-Prints f size bound (codes ",") fields good h in
      (comma ++ (escape name ++ (b':' ∷ (text ++ rest))), rw (e, d))

  print_items-Prints :
      (f : Ref → Result PrintError Bytes) (size bound : ℕ) (comma : Bytes) (items : List Ref)
      → ((value : Ref) → Below rank size bound value → Prints (f value))
      → All (Below rank size bound) items
      → Prints (print_items show_double f comma items)
  unfolding print_items
  print_items-Prints f size bound comma [] good h = ([], refl)
  print_items-Prints f size bound comma (value ∷ items) good (p, h) =
      let (text, e) = good value p in
      let (rest, d) = print_items-Prints f size bound (codes ",") items good h in
      (comma ++ (text ++ rest), rw (e, d))

  print_cell-Prints :
      (f : Ref → Result PrintError Bytes) (size bound : ℕ) (cell : Cell Double)
      → ((value : Ref) → Below rank size bound value → Prints (f value))
      → Parts rank size bound cell
      → Prints (print_cell show_double f cell)
  unfolding print_cell
  print_cell-Prints f size bound (string s) good h = (_, refl)
  print_cell-Prints f size bound (int n) good h = (_, refl)
  print_cell-Prints f size bound (double x) good h = (_, refl)
  print_cell-Prints f size bound (bool x) good h = (_, refl)
  print_cell-Prints f size bound (struct fields) good h =
      let (text, e) = print_fields-Prints f size bound [] fields good h in
      (b'{' ∷ (text ++ b'}' ∷ []), rw e)
  print_cell-Prints f size bound (array items) good h =
      let (text, e) = print_items-Prints f size bound [] items good h in
      (b'[' ∷ (text ++ b']' ∷ []), rw e)

  -- In a pool with no cycle, every reference of a rank below the fuel has a text: the printing ends,
  -- and meets no reference to an object that is not there.
  pub print-Prints :
      (pool : Pool Double)
      → IsAcyclic rank pool
      → (fuel : ℕ) (value : Ref) → Below rank (length pool) fuel value
      → Prints (print show_double (suc fuel) pool value)
  unfolding print
  print-Prints pool h fuel null_ref below = (codes "null", refl)
  print-Prints pool h zero (at n) below = absurd (omega arith)
  print-Prints pool h (suc fuel) (at n) (inside, below) =
      let (cell, e) = get_elem?-lt pool n inside in
      let (text, d) =
        print_cell-Prints (print show_double (suc fuel) pool) (length pool) (rank n) cell
          (λ value lower.
            print-Prints pool h fuel value
              (Below-mono rank value (omega arith) (omega arith) lower))
          (h.parts n cell e) in
      (text, rw (e, print) d)

-- In a pool of one struct that was appended to itself, the struct has no text for any fuel: its
-- printing never ends.
print-cycle :
    {Double : Type 0} (show_double : Double → Bytes) (name : Bytes) (fuel : ℕ)
    → print show_double fuel (append Double 0 name (at 0) (struct [] ∷ [])) (at 0) ≡ err out_of_fuel
unfolding print append assign
print-cycle show_double name zero = refl
print-cycle show_double name (suc fuel) = rw (print-cycle show_double name fuel)
