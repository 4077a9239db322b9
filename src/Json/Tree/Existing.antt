-- ===== src/Json/Tree/Existing.antt =====
-- Which objects of a pool show a tree.
use threadserver.Prelude.{
  ℕ, zero, suc, ◌≡◌, refl, some, List, [], ◌∷◌, length, get_elem?, All, arith,
}
use threadserver.Prelude.Map.{Map}
use threadserver.Json.{Ref, null_ref, at, Cell, string, int, double, bool, struct, array, Pool}
use threadserver.Json.Print.{Below, Below-mono, Parts, IsAcyclic, get_elem?-lt}
use threadserver.Json.Tree.{
  Tree, null, text, number, truth, object, list, Fields, no_fields, field, Items, no_items, item,
  Shows, ShowsFields, ShowsItems,
}

module _ {Double : Type 0} where
  abbrev pub IsExact : Cell Double → Type 0
  IsExact (double x) = ⊥
  IsExact cell = Unit

module _ {Double : Type 0} (rank : ℕ → ℕ) (pool : Pool Double) where
  abbrev pub Shown : Ref → Type 0
  Shown value = (t : Tree) × Shows pool t value

  fields-Shown :
      (size bound : ℕ) (fields : Map Ref)
      → ((value : Ref) → Below rank size bound value → Shown value)
      → All (λ field. Below rank size bound field.1) fields
      → (fs : Fields) × ShowsFields pool fs fields
  unfolding ShowsFields
  fields-Shown size bound [] f h = (no_fields, refl)
  fields-Shown size bound ((name, value) ∷ fields) f (p, h) =
      let (t, shows) = f value p in
      let (fs, others) = fields-Shown size bound fields f h in
      (field name t fs, (value, fields, refl, shows, others))

  items-Shown :
      (size bound : ℕ) (items : List Ref)
      → ((value : Ref) → Below rank size bound value → Shown value)
      → All (Below rank size bound) items
      → (ts : Items) × ShowsItems pool ts items
  unfolding ShowsItems
  items-Shown size bound [] f h = (no_items, refl)
  items-Shown size bound (value ∷ items) f (p, h) =
      let (t, shows) = f value p in
      let (ts, others) = items-Shown size bound items f h in
      (item t ts, (value, items, refl, shows, others))

  cell-Shown :
      (size bound n : ℕ) (cell : Cell Double)
      → get_elem? pool n ≡ some cell
      → IsExact cell
      → ((value : Ref) → Below rank size bound value → Shown value)
      → Parts rank size bound cell
      → Shown (at n)
  unfolding Shows
  cell-Shown size bound n (string s) e exact f h = (text s, (n, refl, e))
  cell-Shown size bound n (int m) e exact f h = (number m, (n, refl, e))
  cell-Shown size bound n (double x) e exact f h = absurd exact
  cell-Shown size bound n (bool b) e exact f h = (truth b, (n, refl, e))
  cell-Shown size bound n (struct fields) e exact f h =
      let (fs, shows) = fields-Shown size bound fields f h in
      (object fs, (fields, (n, refl, e), shows))
  cell-Shown size bound n (array items) e exact f h =
      let (ts, shows) = items-Shown size bound items f h in (list ts, (items, (n, refl, e), shows))

  -- In a pool with no cycle and no `double`, every reference shows a tree.
  Below-Shown :
      IsAcyclic rank pool
      → ((n : ℕ) (cell : Cell Double) → get_elem? pool n ≡ some cell → IsExact cell)
      → (bound : ℕ) (value : Ref) → Below rank (length pool) bound value
      → Shown value
  unfolding Shows
  Below-Shown h exact bound null_ref below = (null, refl)
  Below-Shown h exact zero (at n) below = absurd (omega arith)
  Below-Shown h exact (suc bound) (at n) (inside, below) =
      let (cell, e) = get_elem?-lt pool n inside in
      cell-Shown (length pool) (rank n) n cell e (exact n cell e)
        (λ value lower.
          Below-Shown h exact bound value (Below-mono rank value (omega arith) (omega arith) lower))
        (h.parts n cell e)
