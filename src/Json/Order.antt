-- ===== src/Json/Order.antt =====
-- `Struct_t::append` of json.cc: the order of the fields in a struct is that of their names.
use mathlib.Core.Path.{subst, fun_ext}
use threadserver.Prelude.{
  ℕ, zero, suc, ◌≡◌, refl, sym, ap, ◌∙◌, Option, some, List, [], ◌∷◌, All, Bytes, same,
  if◌then◌else◌,
}
use threadserver.Prelude.Map.{Map, lookup, assign, lookup-assign}
use threadserver.Prelude.Map.Ordered.{IsOrdered, assign-IsOrdered, IsOrdered-ext}
use threadserver.Json.{Ref, Cell, struct, Pool, update, append, append_field}

-- The value that a name is given last.
abbrev pub last_of : Bytes → List (Bytes × Ref) → Option Ref → Option Ref
last_of name [] o = o
last_of name ((j, r) ∷ ms) o = last_of name ms (if same j name then some r else o)

abbrev assign_all : List (Bytes × Ref) → Map Ref → Map Ref
assign_all [] fields = fields
assign_all ((j, r) ∷ ms) fields = assign_all ms (assign j r fields)

lookup-assign_all :
    (name : Bytes) (ms : List (Bytes × Ref)) (fields : Map Ref)
    → lookup name (assign_all ms fields) ≡ last_of name ms (lookup name fields)
lookup-assign_all name [] fields = refl
lookup-assign_all name ((j, r) ∷ ms) fields =
    lookup-assign_all name ms (assign j r fields)
    ∙ ap (last_of name ms) (lookup-assign j name r fields)

assign_all-IsOrdered :
    (ms : List (Bytes × Ref)) (fields : Map Ref)
    → IsOrdered fields
    → IsOrdered (assign_all ms fields)
assign_all-IsOrdered [] fields h = h
assign_all-IsOrdered ((j, r) ∷ ms) fields h =
    assign_all-IsOrdered ms (assign j r fields) (assign-IsOrdered j r fields h)

module _ (Double : Type 0) where
  abbrev pub IsOrderedCell : Cell Double → Type 0
  IsOrderedCell (struct fields) = IsOrdered fields
  IsOrderedCell _ = Unit

  -- Appends to the n-th value, one after another.
  abbrev pub append_all : ℕ → List (Bytes × Ref) → Pool Double → Pool Double
  append_all n [] pool = pool
  append_all n ((name, value) ∷ ms) pool = append_all n ms (append Double n name value pool)

  append_all_fields : List (Bytes × Ref) → Cell Double → Cell Double
  append_all_fields ms (struct fields) = struct (assign_all ms fields)
  append_all_fields ms cell = cell

  update-update :
      (f g : Cell Double → Cell Double) (n : ℕ) (pool : Pool Double)
      → update Double f n (update Double g n pool) ≡ update Double (λ c. f (g c)) n pool
  unfolding update
  update-update f g n [] = refl
  update-update f g zero (cell ∷ pool) = refl
  update-update f g (suc n) (cell ∷ pool) = ap (◌∷◌ cell) (update-update f g n pool)

  -- Functions that agree on the cells of a pool update it alike.
  update-ext :
      {P : Cell Double → Type 0} (f g : Cell Double → Cell Double) (n : ℕ) (pool : Pool Double)
      → ((c : Cell Double) → P c → f c ≡ g c)
      → All P pool
      → update Double f n pool ≡ update Double g n pool
  unfolding update
  update-ext f g n [] agree h = refl
  update-ext f g zero (cell ∷ pool) agree (p, h) = ap (λ c. c ∷ pool) (agree cell p)
  update-ext f g (suc n) (cell ∷ pool) agree (p, h) = ap (◌∷◌ cell) (update-ext f g n pool agree h)

  update-All :
      {P : Cell Double → Type 0} (f : Cell Double → Cell Double) (n : ℕ) (pool : Pool Double)
      → ((c : Cell Double) → P c → P (f c))
      → All P pool
      → All P (update Double f n pool)
  unfolding update
  update-All f n [] keep h = h
  update-All f zero (cell ∷ pool) keep (p, h) = (keep cell p, h)
  update-All f (suc n) (cell ∷ pool) keep (p, h) = (p, update-All f n pool keep h)

  append_all_fields-nil : (c : Cell Double) → c ≡ append_all_fields [] c
  unfolding append_all_fields
  append_all_fields-nil (struct fields) = refl
  append_all_fields-nil _ = refl

  append_all_fields-cons :
      (name : Bytes) (value : Ref) (ms : List (Bytes × Ref)) (c : Cell Double)
      → append_all_fields ms (append_field Double name value c)
        ≡ append_all_fields ((name, value) ∷ ms) c
  unfolding append_all_fields append_field
  append_all_fields-cons name value ms (struct fields) = refl
  append_all_fields-cons name value ms _ = refl

  update_self : (n : ℕ) (pool : Pool Double) → update Double (λ c. c) n pool ≡ pool
  unfolding update
  update_self n [] = refl
  update_self zero (cell ∷ pool) = refl
  update_self (suc n) (cell ∷ pool) = ap (◌∷◌ cell) (update_self n pool)

  append_all-eq-update :
      (n : ℕ) (ms : List (Bytes × Ref)) (pool : Pool Double)
      → append_all n ms pool ≡ update Double (append_all_fields ms) n pool
  unfolding append
  append_all-eq-update n [] pool =
      sym (update_self n pool) ∙ ap (λ f. update Double f n pool) (fun_ext append_all_fields-nil)
  append_all-eq-update n ((name, value) ∷ ms) pool =
      append_all-eq-update n ms (append Double n name value pool)
      ∙ update-update (append_all_fields ms) (append_field Double name value) n pool
      ∙ ap (λ f. update Double f n pool) (fun_ext (append_all_fields-cons name value ms))

  append_all_fields-IsOrdered :
      (ms : List (Bytes × Ref)) (c : Cell Double)
      → IsOrderedCell c
      → IsOrderedCell (append_all_fields ms c)
  unfolding append_all_fields
  append_all_fields-IsOrdered ms (struct fields) h = assign_all-IsOrdered ms fields h
  append_all_fields-IsOrdered ms _ h = h

  append_all_fields-ext :
      (ms ms' : List (Bytes × Ref)) (c : Cell Double)
      → ((name : Bytes) (o : Option Ref) → last_of name ms o ≡ last_of name ms' o)
      → IsOrderedCell c
      → append_all_fields ms c ≡ append_all_fields ms' c
  unfolding append_all_fields
  append_all_fields-ext ms ms' (struct fields) agree h = ap struct (
      IsOrdered-ext (assign_all ms fields) (assign_all ms' fields)
        (assign_all-IsOrdered ms fields h) (assign_all-IsOrdered ms' fields h)
        (λ name.
          lookup-assign_all name ms fields
          ∙ agree name (lookup name fields)
          ∙ sym (lookup-assign_all name ms' fields)))
  append_all_fields-ext ms ms' _ agree h = refl

  -- In a pool whose structs have their fields in increasing order of the names, appending fields to a
  -- value keeps that order; and two ways of appending that give each name the same value last, in
  -- whatever order, end with the same pool.
  pub append_all-IsOrdered :
      (n : ℕ) (ms ms' : List (Bytes × Ref)) (pool : Pool Double)
      → All IsOrderedCell pool
      → ((name : Bytes) (o : Option Ref) → last_of name ms o ≡ last_of name ms' o)
      → All IsOrderedCell (append_all n ms pool) × (append_all n ms pool ≡ append_all n ms' pool)
  append_all-IsOrdered n ms ms' pool h agree = (
    subst (All IsOrderedCell) (sym (append_all-eq-update n ms pool)) (
        update-All {P = IsOrderedCell} (append_all_fields ms) n pool
          (append_all_fields-IsOrdered ms) h),
    append_all-eq-update n ms pool
        ∙ update-ext {P = IsOrderedCell} (append_all_fields ms) (append_all_fields ms') n pool
            (λ c p. append_all_fields-ext ms ms' c agree p) h
        ∙ sym (append_all-eq-update n ms' pool),
  )
