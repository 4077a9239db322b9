-- ===== src/Json/Building.antt =====
-- Building values in a pool: `Pool_t::Struct` and the like, `Struct_t::append`, `Array_t::push_back`.
use mathlib.Core.Path.{subst, subst₂}
use mathlib.Core.Logic.{◌⊎◌}
use threadserver.Prelude.{
  of_some, ℕ, zero, suc, ◌≤◌, ◌≡◌, refl, sym, ap, some, List, [], ◌∷◌, ◌++◌, All, arith, Bytes,
  length, get_elem?, if◌then◌else◌, length-append, All-append, same, before, ◌==◌, Bool-cases, inl,
  inr, ==_iff,
}
use threadserver.Prelude.Map.{Map, assign}
use threadserver.Json.{
  Ref, Cell, string, int, double, bool, struct, array, Pool, allocate, update, append, append_field,
  push_back, push_item,
}
use threadserver.Json.Print.{Below, Below-mono, Parts, IsAcyclic}

get_elem?-snoc {ℓ} :
    {A : Type ℓ} (xs : List A) (x : A) (n : ℕ)
    → get_elem? (xs ++ x ∷ []) n ≡ (if n == length xs then some x else get_elem? xs n)
get_elem?-snoc [] x zero = refl
get_elem?-snoc [] x (suc n) = ground arith
get_elem?-snoc (y ∷ xs) x zero = ground arith
get_elem?-snoc (y ∷ xs) x (suc n) = ground (arith, get_elem?-snoc xs x n)

-- An object of the changed pool is as it was, or is the changed one.
get_elem?-update :
    {Double : Type 0} (f : Cell Double → Cell Double) (n : ℕ) (pool : Pool Double) (j : ℕ)
    (cell : Cell Double)
    → get_elem? (update Double f n pool) j ≡ some cell
    → (get_elem? pool j ≡ some cell)
      ⊎ ((old : Cell Double) × (j ≡ n) × (get_elem? pool j ≡ some old) × (f old ≡ cell))
unfolding update
get_elem?-update f n [] j cell e = inl e
get_elem?-update f zero (c ∷ pool) zero cell e = inr (c, refl, refl, of_some e)
get_elem?-update f zero (c ∷ pool) (suc j) cell e = inl e
get_elem?-update f (suc n) (c ∷ pool) zero cell e = inl e
get_elem?-update f (suc n) (c ∷ pool) (suc j) cell e = elim (get_elem?-update f n pool j cell e) [
  | inl was ↦ inl was
  | inr (old, here, was, now) ↦ inr (old, ap suc here, was, now)
]

length-update :
    {Double : Type 0} (f : Cell Double → Cell Double) (n : ℕ) (pool : Pool Double)
    → length (update Double f n pool) ≡ length pool
unfolding update
length-update f n [] = refl
length-update f zero (c ∷ pool) = refl
length-update f (suc n) (c ∷ pool) = ap suc (length-update f n pool)

All-assign {ℓ} :
    (P : Ref → Type ℓ) (k : Bytes) (v : Ref) (m : Map Ref)
    → P v
    → All (λ field. P field.1) m
    → All (λ field. P field.1) (assign k v m)
unfolding assign
All-assign P k v [] p h = (p, h)
All-assign P k v ((j, w) ∷ m) p (q, h) = elim (Bool-cases (same j k)) [
  | inl e ↦ rw e (p, h)
  | inr e ↦ elim (Bool-cases (before k j)) [
    | inl b ↦ rw (e, b) (p, (q, h))
    | inr b ↦ rw (e, b) (q, All-assign P k v m p h)
  ]
]

module _ {Double : Type 0} (rank : ℕ → ℕ) where
  Parts-mono :
      (size size' bound : ℕ) (cell : Cell Double)
      → size ≤ size'
      → Parts rank size bound cell
      → Parts rank size' bound cell
  Parts-mono size size' bound (string s) le h = tt
  Parts-mono size size' bound (int n) le h = tt
  Parts-mono size size' bound (double x) le h = tt
  Parts-mono size size' bound (bool x) le h = tt
  Parts-mono size size' bound (struct []) le h = tt
  Parts-mono size size' bound (struct ((k, v) ∷ fields)) le (p, h) =
      (Below-mono rank v le (omega arith) p, Parts-mono size size' bound (struct fields) le h)
  Parts-mono size size' bound (array []) le h = tt
  Parts-mono size size' bound (array (v ∷ items)) le (p, h) =
      (Below-mono rank v le (omega arith) p, Parts-mono size size' bound (array items) le h)

  -- A new object keeps the pool free of cycles, if what it names is there and of a lower rank.
  pub allocate-IsAcyclic :
      (cell : Cell Double) (pool : Pool Double)
      → IsAcyclic rank pool
      → Parts rank (length pool) (rank (length pool)) cell
      → IsAcyclic rank (allocate Double cell pool).1
  unfolding allocate
  allocate-IsAcyclic cell pool h new = record {
    parts = λ n c e. elim (Bool-cases (n == length pool)) [
      | inl t ↦
          let here : n ≡ length pool = (==_iff n (length pool)).0 t in
          let is : some cell ≡ some c = ground (arith, get_elem?-snoc pool cell n) in
          subst₂ (λ b x. Parts rank (length (pool ++ cell ∷ [])) (rank b) x) (sym here) (of_some is)
            (Parts-mono _ _ _ cell grows new)
      | inr t ↦
          let was : get_elem? pool n ≡ some c = ground (arith, get_elem?-snoc pool cell n) in
          Parts-mono _ _ _ c grows (h.parts n c was)
    ];
  }
    where
      grows : length pool ≤ length (pool ++ cell ∷ [])
      grows = omega (arith, length-append pool (cell ∷ []))

  Parts-append_field :
      (name : Bytes) (value : Ref) (size bound : ℕ) (cell : Cell Double)
      → Below rank size bound value
      → Parts rank size bound cell
      → Parts rank size bound (append_field Double name value cell)
  unfolding append_field
  Parts-append_field name value size bound (struct fields) p h =
      All-assign (Below rank size bound) name value fields p h
  Parts-append_field name value size bound (string s) p h = h
  Parts-append_field name value size bound (int n) p h = h
  Parts-append_field name value size bound (double x) p h = h
  Parts-append_field name value size bound (bool x) p h = h
  Parts-append_field name value size bound (array items) p h = h

  Parts-push_item :
      (value : Ref) (size bound : ℕ) (cell : Cell Double)
      → Below rank size bound value
      → Parts rank size bound cell
      → Parts rank size bound (push_item Double value cell)
  unfolding push_item
  Parts-push_item value size bound (array items) p h =
      All-append (Below rank size bound) items (value ∷ []) h (p, tt)
  Parts-push_item value size bound (string s) p h = h
  Parts-push_item value size bound (int n) p h = h
  Parts-push_item value size bound (double x) p h = h
  Parts-push_item value size bound (bool x) p h = h
  Parts-push_item value size bound (struct fields) p h = h

  update-IsAcyclic :
      (f : Cell Double → Cell Double) (n : ℕ) (pool : Pool Double)
      → ((cell : Cell Double)
          → Parts rank (length pool) (rank n) cell
          → Parts rank (length pool) (rank n) (f cell))
      → IsAcyclic rank pool
      → IsAcyclic rank (update Double f n pool)
  update-IsAcyclic f n pool keep h = record {
    parts = λ j c e. rw (length-update f n pool) (elim (get_elem?-update f n pool j c e) [
      | inl was ↦ h.parts j c was
      | inr (old, here, was, now) ↦
          subst₂ (λ b x. Parts rank (length pool) (rank b) x) (sym here) now
            (keep old (subst (λ b. Parts rank (length pool) (rank b) old) here (h.parts j old was)))
    ]);
  }

  -- Appending a field to a struct, or an item to an array, keeps the pool free of cycles and of
  -- references to objects that are not there, if the value that is added is null, or is in the pool
  -- and of a lower rank than the object that it is added to.
  pub append-IsAcyclic :
      (n : ℕ) (name : Bytes) (value : Ref) (pool : Pool Double)
      → IsAcyclic rank pool
      → Below rank (length pool) (rank n) value
      → IsAcyclic rank (append Double n name value pool)
        × IsAcyclic rank (push_back Double n value pool)
  unfolding append push_back
  append-IsAcyclic n name value pool h below = (
    update-IsAcyclic (append_field Double name value) n pool
        (λ cell. Parts-append_field name value (length pool) (rank n) cell below) h,
    update-IsAcyclic (push_item Double value) n pool
        (λ cell. Parts-push_item value (length pool) (rank n) cell below) h,
  )
