-- ===== src/Http/Params/Indexed.antt =====
-- `Parameters_t::getIndexed` and `MimeParameters_t::getIndexedFiles`, by the type of the values. The regular expression that is made of the name is a parameter: what it
-- gives for a key, as the texts of its groups.
pub mod Complete
use threadserver.Prelude.{
  ℕ, ◌≡◌, ◌≢◌, refl, sym, Bool, true, false, ◌⊎◌, inl, inr, Option, none, some, List, [], ◌∷◌,
  Bytes, Result, ok, err, ◌>>=◌, or_throw, ltb, ◌==◌, if◌then◌else◌, ◌||◌, ◌&&◌, Bool-cases,
  Option-cases, All,
}
use threadserver.Prelude.Map.{Map}
use threadserver.Http.Params.{ParamError, bad_cast, no_front}

-- `std::vector<size_t>`: equal, and in order
unfoldable pub same_indexes : List ℕ → List ℕ → Bool
same_indexes [] [] = true
same_indexes [] (j ∷ js) = false
same_indexes (i ∷ is) [] = false
same_indexes (i ∷ is) (j ∷ js) = i == j && same_indexes is js

unfoldable pub before_indexes : List ℕ → List ℕ → Bool
before_indexes is [] = false
before_indexes [] (j ∷ js) = true
before_indexes (i ∷ is) (j ∷ js) = ltb i j || (i == j && before_indexes is js)

abbrev pub Indexed : Type 0 → Type 0
Indexed V = List (List ℕ × V)

-- `result.insert(...)`: an entry that is there stays.
unfoldable pub insert_indexed : {V : Type 0} → List ℕ → V → Indexed V → Indexed V
unfolding same_indexes before_indexes
insert_indexed is v [] = (is, v) ∷ []
insert_indexed is v ((js, w) ∷ result) =
    if same_indexes is js
    then (js, w) ∷ result
    else if before_indexes is js
    then (is, v) ∷ (js, w) ∷ result
    else (js, w) ∷ insert_indexed is v result

Result-cases : {E A : Type 0} (r : Result E A) → ((a : A) × (r ≡ ok a)) ⊎ ((e : E) × (r ≡ err e))
Result-cases (ok a) = inl (a, refl)
Result-cases (err e) = inr (e, refl)

of_ok :
    {V : Type 0} {a b : Indexed V} → ◌≡◌ {A = Result ParamError (Indexed V)} (ok a) (ok b) → a ≡ b
of_ok e = cc

err-ne-ok :
    {V : Type 0} {x : ParamError} {a : Indexed V}
    → ◌≢◌ {A = Result ParamError (Indexed V)} (err x) (ok a)
err-ne-ok e = cc

module _ (cast_size : Bytes → Option ℕ) (groups_of : Bytes → Option (List Bytes)) where
  -- The groups from 1 on, each converted.
  unfoldable pub cast_indexes : Bytes → List Bytes → Result ParamError (List ℕ)
  cast_indexes name [] = ok []
  cast_indexes name (group ∷ groups) = do
    index ← or_throw (cast_size group) (bad_cast name group)
    indexes ← cast_indexes name groups
    ok (index ∷ indexes)

  -- `idata->second.front()`
  unfoldable pub front : {V : Type 0} → Bytes → List V → Result ParamError V
  front name [] = err (no_front name)
  front name (v ∷ vs) = ok v

  -- The loop of `getIndexed`.
  unfoldable pub indexed_from :
      {V : Type 0} → Bytes → Map (List V) → Indexed V → Result ParamError (Indexed V)
  unfolding cast_indexes front insert_indexed
  indexed_from name [] result = ok result
  indexed_from name ((key, values) ∷ stored) result = elim (groups_of key) [
    | none ↦ indexed_from name stored result
    | some groups ↦ do
      indexes ← cast_indexes name groups
      value ← front name values
      indexed_from name stored (insert_indexed indexes value result)
  ]

  unfoldable pub get_indexed : {V : Type 0} → Bytes → Map (List V) → Result ParamError (Indexed V)
  unfolding indexed_from
  get_indexed name stored = indexed_from name stored []

  -- An entry of the answer has its value from a stored key whose groups are its indexes.
  abbrev pub Comes : {V : Type 0} → Bytes → Map (List V) → List ℕ × V → Type 0
  Comes name [] entry = ⊥
  Comes name ((key, values) ∷ stored) entry =
      ((groups : List Bytes) × (groups_of key ≡ some groups)
        × (cast_indexes name groups ≡ ok entry.0)
        × (front name values ≡ ok entry.1))
      ⊎ Comes name stored entry

  insert_indexed-All :
      {V : Type 0} (P : List ℕ × V → Type 0) (is : List ℕ) (v : V) (result : Indexed V)
      → P (is, v)
      → All P result
      → All P (insert_indexed is v result)
  unfolding insert_indexed
  insert_indexed-All P is v [] p h = (p, tt)
  insert_indexed-All P is v ((js, w) ∷ result) p (q, h) = elim (Bool-cases (same_indexes is js)) [
    | inl e ↦ rw e (q, h)
    | inr e ↦ elim (Bool-cases (before_indexes is js)) [
      | inl f ↦ rw (e, f) (p, (q, h))
      | inr f ↦ rw (e, f) (q, insert_indexed-All P is v result p h)
    ]
  ]

  indexed_from-Comes :
      {V : Type 0} (name : Bytes) (whole stored : Map (List V)) (result final : Indexed V)
      → ((entry : List ℕ × V) → Comes name stored entry → Comes name whole entry)
      → All (Comes name whole) result
      → indexed_from name stored result ≡ ok final
      → All (Comes name whole) final
  unfolding indexed_from
  indexed_from-Comes name whole [] result final part h e = rw (sym (of_ok e)) h
  indexed_from-Comes name whole ((key, values) ∷ stored) result final part h e =
      elim (Option-cases (groups_of key)) [
        | inl n ↦
            indexed_from-Comes name whole stored result final (λ entry c. part entry (inr c)) h
              (rw (n, indexed_from) at e)
        | inr (groups, g) ↦ elim (Result-cases (cast_indexes name groups)) [
          | inr (x, b) ↦ absurd (err-ne-ok (rw (g, indexed_from, b) at e))
          | inl (indexes, c) ↦ elim (Result-cases (front name values)) [
            | inr (x, b) ↦ absurd (err-ne-ok (rw (g, indexed_from, c, b) at e))
            | inl (value, v) ↦
                indexed_from-Comes name whole stored (insert_indexed indexes value result) final
                  (λ entry c. part entry (inr c))
                  (insert_indexed-All (Comes name whole) indexes value result
                    (part (indexes, value) (inl (groups, g, c, v))) h)
                  (rw (g, indexed_from, c, v) at e)
          ]
        ]
      ]

  -- Each value that `getIndexed` answers under some indexes is the first one of a stored key that
  -- the expression matches, and whose groups, converted to numbers, are those indexes.
  pub get_indexed-Comes :
      {V : Type 0} (name : Bytes) (stored : Map (List V)) (final : Indexed V)
      → get_indexed name stored ≡ ok final
      → All (Comes name stored) final
  unfolding get_indexed
  get_indexed-Comes name stored final e =
      indexed_from-Comes name stored stored [] final (λ entry c. c) tt e
