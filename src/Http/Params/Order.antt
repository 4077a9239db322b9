-- ===== src/Http/Params/Order.antt =====
-- `Parameters_t::parse` of cpphttphandler.cc: the map of a form holds its values and nothing else of it.
use threadserver.Prelude.{
  ◌≡◌, ◌↔◌, refl, sym, ap, ◌∙◌, none, List, [], ◌∷◌, map, find, All, Bytes, Option-cases, inl, inr,
}
use threadserver.Prelude.Map.{lookup, with_more}
use threadserver.Prelude.Map.Ordered.{IsOrdered, push_at-IsOrdered, IsOrdered-ext}
use threadserver.Http.Params.{Data, store, store_all, parse}
use threadserver.Http.Params.Stored.{
  joined, Tokenizer, Written, token, Sendable, form_values, lookup-parse,
}

store-IsOrdered : (t : Bytes) (m : Data) → IsOrdered m → IsOrdered (store t m)
unfolding store
store-IsOrdered t m h = elim (Option-cases (find b'=' t)) [
  | inl e ↦ rw (e, store) (push_at-IsOrdered _ _ m h)
  | inr (at, e) ↦ rw (e, store) (push_at-IsOrdered _ _ m h)
]

store_all-IsOrdered : (ts : List Bytes) (m : Data) → IsOrdered m → IsOrdered (store_all ts m)
unfolding store_all
store_all-IsOrdered [] m h = h
store_all-IsOrdered (t ∷ ts) m h = store_all-IsOrdered ts (store t m) (store-IsOrdered t m h)

with_more-inj {ℓ} : {V : Type ℓ} (vs ws : List V) → with_more none vs ≡ with_more none ws → vs ≡ ws
with_more-inj [] [] e = refl
with_more-inj [] (w ∷ ws) e = cc
with_more-inj (v ∷ vs) [] e = cc
with_more-inj (v ∷ vs) (w ∷ ws) e = cc

-- With a tokenizer that splits at "&", and two forms whose names and values are written with no "&",
-- whose names are written with no "=", and each with less than 2 ^ 64 bytes: the forms are parsed to the
-- same map exactly when they have the same values, in the same order, for every name. How the fields of
-- different names are interleaved, and how the bytes are written, leaves no trace.
pub parse-eq_iff :
    (tokens : Bytes → List Bytes) (form form' : List (Written × Written))
    → Tokenizer tokens
    → All Sendable form
    → All Sendable form'
    → (parse tokens (joined (map token form)) [] ≡ parse tokens (joined (map token form')) [])
      ↔ ((name : Bytes) → form_values name form ≡ form_values name form')
unfolding parse lookup
parse-eq_iff tokens form form' splits h h' = (
  λ e name. with_more-inj (form_values name form) (form_values name form') (
      sym (lookup-parse tokens form name [] splits h)
      ∙ ap (lookup name) e
      ∙ lookup-parse tokens form' name [] splits h'),
  λ same_values.
      IsOrdered-ext _ _ (store_all-IsOrdered (tokens (joined (map token form))) [] tt)
        (store_all-IsOrdered (tokens (joined (map token form'))) [] tt)
        (λ name.
          lookup-parse tokens form name [] splits h
          ∙ ap (with_more none) (same_values name)
          ∙ sym (lookup-parse tokens form' name [] splits h')),
)
