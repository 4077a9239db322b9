-- ===== src/Http/Params/Indexed/Complete.antt =====
-- What `getIndexed` leaves out: nothing that the expression matches.
use threadserver.Prelude.{
  ℕ, ◌≡◌, ◌↔◌, ◌⊎◌, refl, sym, ap, ◌∙◌, Bool, true, false, inl, inr, Option, some, List, [], ◌∷◌,
  Bytes, Result, ok, ◌||◌, Option-cases, All, arith,
}
use threadserver.Prelude.Map.{Map}
use threadserver.Http.Params.{ParamError}
use threadserver.Http.Params.Indexed.{
  Indexed, same_indexes, insert_indexed, cast_indexes, front, indexed_from, get_indexed, Comes,
  Result-cases, of_ok, err-ne-ok, get_indexed-Comes,
}

same_indexes_iff : (is js : List ℕ) → (same_indexes is js ≡ true) ↔ (is ≡ js)
unfolding same_indexes
same_indexes_iff [] [] = (λ e. refl, λ e. refl)
same_indexes_iff [] (j ∷ js) = (λ e. cc, λ e. cc)
same_indexes_iff (i ∷ is) [] = (λ e. cc, λ e. cc)
same_indexes_iff (i ∷ is) (j ∷ js) = ground (arith, same_indexes_iff is js)

-- An entry of the answer has these indexes.
unfoldable pub answers : {V : Type 0} → List ℕ → Indexed V → Bool
answers is [] = false
answers is ((js, w) ∷ result) = same_indexes is js || answers is result

answers-insert_indexed :
    {V : Type 0} (is js : List ℕ) (v : V) (result : Indexed V)
    → answers is (insert_indexed js v result) ≡ (same_indexes is js || answers is result)
unfolding answers insert_indexed
answers-insert_indexed is js v [] = refl
answers-insert_indexed is js v ((ks, w) ∷ result) = ground (
  arith,
  same_indexes_iff is js,
  same_indexes_iff js ks,
  same_indexes_iff is ks,
  answers-insert_indexed is js v result,
)

of_ok_indexes : {is js : List ℕ} → ◌≡◌ {A = Result ParamError (List ℕ)} (ok is) (ok js) → is ≡ js
of_ok_indexes e = cc

module _ (cast_size : Bytes → Option ℕ) (groups_of : Bytes → Option (List Bytes)) where
  -- A stored key that the expression matches, with these indexes.
  abbrev pub Matches : {V : Type 0} → Bytes → Map (List V) → List ℕ → Type 0
  Matches name [] is = ⊥
  Matches name ((key, values) ∷ stored) is =
      ((groups : List Bytes) × (groups_of key ≡ some groups)
        × (cast_indexes cast_size groups_of name groups ≡ ok is))
      ⊎ Matches name stored is

  indexed_from-answers :
      {V : Type 0} (name : Bytes) (is : List ℕ) (stored : Map (List V)) (result final : Indexed V)
      → indexed_from cast_size groups_of name stored result ≡ ok final
      → (answers is result ≡ true) ⊎ Matches name stored is
      → answers is final ≡ true
  unfolding indexed_from
  indexed_from-answers name is [] result final e (inl h) = ap (answers is) (sym (of_ok e)) ∙ h
  indexed_from-answers name is [] result final e (inr h) = absurd h
  indexed_from-answers name is ((key, values) ∷ stored) result final e h =
      elim (Option-cases (groups_of key)) [
        | inl n ↦
            indexed_from-answers name is stored result final (rw (n, indexed_from) at e) (elim h [
              | inl there ↦ inl there
              | inr (inl (groups, g, c)) ↦ cc
              | inr (inr later) ↦ inr later
            ])
        | inr (groups, g) ↦ elim (Result-cases (cast_indexes cast_size groups_of name groups)) [
          | inr (x, b) ↦ absurd (err-ne-ok (rw (g, indexed_from, b) at e))
          | inl (indexes, c) ↦ elim (Result-cases (front cast_size groups_of name values)) [
            | inr (x, b) ↦ absurd (err-ne-ok (rw (g, indexed_from, c, b) at e))
            | inl (value, v) ↦
                indexed_from-answers name is stored (insert_indexed indexes value result) final
                  (rw (g, indexed_from, c, v) at e)
                  (elim h [
                    | inl there ↦
                        inl (ground (arith, answers-insert_indexed is indexes value result))
                    | inr (inl (groups', g', c')) ↦
                        let same_groups : groups' ≡ groups = cc in
                        let here : is ≡ indexes =
                          of_ok_indexes
                            (sym c' ∙ ap (cast_indexes cast_size groups_of name) same_groups ∙ c) in
                        inl (
                          ground (
                            arith,
                            answers-insert_indexed is indexes value result,
                            same_indexes_iff is indexes,
                          ))
                    | inr (inr later) ↦ inr later
                  ])
          ]
        ]
      ]

  -- If `getIndexed` or `getIndexedFiles` returns, each value in its answer is the first one of a stored
  -- key that the expression matches, under the key's groups, converted to numbers; and every stored key
  -- that the expression matches has an entry under its numbers.
  pub get_indexed-Matches :
      {V : Type 0} (name : Bytes) (stored : Map (List V)) (final : Indexed V)
      → get_indexed cast_size groups_of name stored ≡ ok final
      → All (Comes cast_size groups_of name stored) final
        × ((is : List ℕ) → Matches name stored is → answers is final ≡ true)
  unfolding get_indexed
  get_indexed-Matches name stored final e = (
    get_indexed-Comes cast_size groups_of name stored final e,
    λ is h. indexed_from-answers name is stored [] final e (inr h),
  )
