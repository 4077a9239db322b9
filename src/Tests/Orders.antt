-- ===== src/Tests/Orders.antt =====
-- Examples of the order in maps: of the fields of a form, and of the fields of a struct.
use threadserver.Prelude.{
  ok, some, ◌≡◌, ◌↔◌, List, [], ◌∷◌, map, All, Bytes, Option, codes, same_iff, arith,
}
use mathlib.Core.Quot
use threadserver.Http.Params.{parse, get}
use threadserver.Http.Params.Forms.{AbstractForm, values_of, stored_form, stored_form-embeds}
use threadserver.Http.Params.Stored.{Written, Sendable, joined, token}
use threadserver.Json.{Ref, at, null_ref, Pool, struct}
use threadserver.Json.Order.{IsOrderedCell, append_all, last_of, append_all-IsOrdered}
use threadserver.Tests.{at_ampersands, at_ampersands-Tokenizer}
use threadserver.Tests.Forms.{form, form-Sendable, key, mixed, name_j}

abbrev moved : List (Written × Written)
moved = (name_j, []) ∷ (key, mixed) ∷ (key, key) ∷ []

moved-Sendable : All Sendable moved
moved-Sendable = (form-Sendable.1.0, (form-Sendable.0, form-Sendable.1.1))

abbrev one_struct : Pool Bytes
one_struct = struct [] ∷ []

abbrev members : List (Bytes × Ref)
members = (codes "b", at 0) ∷ (codes "a", null_ref) ∷ (codes "b", null_ref) ∷ []

abbrev sorted : List (Bytes × Ref)
sorted = (codes "a", null_ref) ∷ (codes "b", null_ref) ∷ []

members-sorted : (name : Bytes) (o : Option Ref) → last_of name members o ≡ last_of name sorted o
members-sorted name o = ground (arith, same_iff (codes "a") name, same_iff (codes "b") name)

append_all-IsOrdered_example :
    All (IsOrderedCell Bytes) (append_all Bytes 0 members one_struct)
    × (append_all Bytes 0 members one_struct ≡ append_all Bytes 0 sorted one_struct)
append_all-IsOrdered_example =
    append_all-IsOrdered Bytes 0 members sorted one_struct (tt, tt) members-sorted

stored_form-embeds_example :
    let fields : AbstractForm = Quot.mk (form, form-Sendable) in
    let other : AbstractForm = Quot.mk (moved, moved-Sendable) in
    (stored_form at_ampersands at_ampersands-Tokenizer fields
      ≡ parse at_ampersands (joined (map token form)) [])
    × ((stored_form at_ampersands at_ampersands-Tokenizer fields
          ≡ stored_form at_ampersands at_ampersands-Tokenizer other)
        ↔ (◌≡◌ {A = AbstractForm} fields other))
    × (get some (codes "k") (stored_form at_ampersands at_ampersands-Tokenizer fields)
        ≡ ok (values_of (codes "k") fields))
stored_form-embeds_example =
    stored_form-embeds at_ampersands at_ampersands-Tokenizer (form, form-Sendable)
      (Quot.mk (form, form-Sendable)) (Quot.mk (moved, moved-Sendable)) (codes "k")
