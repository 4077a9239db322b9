-- ===== src/Http/Params/Forms.antt =====
-- Forms as what a parser can know of them: which values they have for each name. `Parameters_t::parse`
-- keeps that, and nothing else.
use mathlib.Core.Quot
use mathlib.Core.Quot.{Quot, Quot-set}
use native.Mathlib.Nat.{ℕ_set}
use threadserver.Prelude.{◌≡◌, ◌↔◌, refl, ap, some, List, [], map, All, Bytes, ok}
use threadserver.Http.Params.{Data, parse, get}
use threadserver.Http.Params.Stored.{
  joined, Tokenizer, Written, token, Sendable, form_values, get-parse,
}
use threadserver.Http.Params.Order.{parse-eq_iff}

-- A form that can be sent.
abbrev pub Form : Type 0
Form = (fields : List (Written × Written)) × All Sendable fields

-- Two forms have the same values, in the same order, for every name.
abbrev pub SameValues : Form → Form → Type 0
SameValues f g = (name : Bytes) → form_values name f.0 ≡ form_values name g.0

-- Forms without the way in which they are written and in which their names are interleaved.
abbrev pub AbstractForm : Type 0
AbstractForm = Quot SameValues

Bytes-set : IsSet Bytes
Bytes-set = hlevel (ℕ_set)

values-set : IsSet (List Bytes)
values-set = hlevel (ℕ_set)

Data-set : IsSet Data
Data-set = hlevel (ℕ_set)

-- The values of a name.
pub values_of : Bytes → AbstractForm → List Bytes
values_of name = Quot.lift values-set (λ f. form_values name f.0) (λ f g h. h name)

AbstractForm-set : IsSet AbstractForm
AbstractForm-set = Quot-set

module _ (tokens : Bytes → List Bytes) (splits : Tokenizer tokens) where
  pub stored_form : AbstractForm → Data
  stored_form =
      Quot.lift Data-set (λ f. parse tokens (joined (map token f.0)) [])
        (λ f g h. (parse-eq_iff tokens f.0 g.0 splits f.1 g.1).1 h)

  stored_form-inj : (p q : AbstractForm) → stored_form p ≡ stored_form q → p ≡ q
  unfolding stored_form
  stored_form-inj =
      Quot.ind (λ p. hlevel (AbstractForm-set))
        (λ f.
          Quot.ind (λ q. hlevel (AbstractForm-set))
            (λ g e. Quot.sound ((parse-eq_iff tokens f.0 g.0 splits f.1 g.1).0 e)))

  get-stored_form :
      (p : AbstractForm) (name : Bytes) → get some name (stored_form p) ≡ ok (values_of name p)
  unfolding stored_form values_of
  get-stored_form = Quot.ind (λ p. hlevel) (λ f name. get-parse tokens f.0 name splits f.1)

  -- With a tokenizer that splits at "&", and forms whose names and values are written with no "&",
  -- whose names are written with no "=", and each with less than 2 ^ 64 bytes, the map that `parse`
  -- makes of a form is exactly the form up to the way in which it is written and its names are
  -- interleaved: the map of an abstract form is that of any form that stands for it, it tells abstract
  -- forms apart, and `get` reads the values of a name from it.
  pub stored_form-embeds :
      (f : Form) (p q : AbstractForm) (name : Bytes)
      → (stored_form (Quot.mk f) ≡ parse tokens (joined (map token f.0)) [])
        × ((stored_form p ≡ stored_form q) ↔ (p ≡ q))
        × (get some name (stored_form p) ≡ ok (values_of name p))
  unfolding stored_form
  stored_form-embeds f p q name =
      (refl, (stored_form-inj p q, λ e. ap stored_form e), get-stored_form p name)
