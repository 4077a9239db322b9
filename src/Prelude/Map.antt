-- ===== src/Prelude/Map.antt =====
-- `std::map<std::string, V>`: an association list in the order of its keys.
pub mod Ordered
use mathlib.Core.Path.{◌≡◌, refl, sym, ap, ◌∙◌}
use mathlib.Core.List.{append_assoc, append-nil}
use mathlib.Core.Logic.{inl, inr}
use mathlib.Core.Bool.{Bool, true, false, ◌&&◌}
use mathlib.Core.List.{List, [], ◌∷◌, ◌++◌}
use mathlib.Core.Option.{Option, none, some}
use native.Mathlib.Omega.{arith}
use threadserver.Prelude.Tests.{if◌then◌else◌, is_some, or_else, Bool-cases}
use threadserver.Prelude.Texts.{Bytes, same, same_iff, before}

abbrev pub Map {ℓ} : Type ℓ → Type ℓ
Map V = List (Bytes × V)

module _ {ℓ} {V : Type ℓ} where
  -- `m.find(k)`
  unfoldable pub lookup : Bytes → Map V → Option V
  lookup k [] = none
  lookup k ((j, v) ∷ m) = if same j k then some v else lookup k m

  -- `m[k] = v`
  unfoldable pub assign : Bytes → V → Map V → Map V
  assign k v [] = (k, v) ∷ []
  assign k v ((j, w) ∷ m) =
      if same j k
      then (j, v) ∷ m
      else if before k j
      then (k, v) ∷ (j, w) ∷ m
      else (j, w) ∷ assign k v m

  -- `m.insert(make_pair(k, v))`: an entry that is there stays; the flag tells if `v` went in.
  unfoldable pub insert : Bytes → V → Map V → Map V × Bool
  insert k v m = if is_some (lookup k m) then (m, false) else (assign k v m, true)

  pub lookup-assign :
      (k j : Bytes) (v : V) (m : Map V)
      → lookup j (assign k v m) ≡ (if same k j then some v else lookup j m)
  unfolding lookup assign
  lookup-assign k j v [] = refl
  lookup-assign k j v ((i, w) ∷ m) =
      ground (arith, same_iff k j, same_iff i k, same_iff i j, lookup-assign k j v m)

-- `m[k].push_back(v)`
unfoldable pub push_at {ℓ} : {V : Type ℓ} → Bytes → V → Map (List V) → Map (List V)
unfolding lookup assign
push_at k v m = assign k (or_else (lookup k m) [] ++ v ∷ []) m

pub lookup-push_at {ℓ} :
    {V : Type ℓ} (k j : Bytes) (v : V) (m : Map (List V))
    → lookup j (push_at k v m)
      ≡ (if same k j then some (or_else (lookup k m) [] ++ v ∷ []) else lookup j m)
unfolding push_at
lookup-push_at k j v m = lookup-assign k j _ m

pub lookup-insert {ℓ} :
    {V : Type ℓ} (k j : Bytes) (v : V) (m : Map V)
    → lookup j (insert k v m).0
      ≡ (if is_some (lookup k m) then lookup j m else if same k j then some v else lookup j m)
unfolding insert
lookup-insert k j v m = elim (Bool-cases (is_some (lookup k m))) [
  | inl e ↦ rw e
  | inr e ↦ rw e (lookup-assign k j v m)
]

-- `lookup-push_at` in terms of the entry that is asked for.
pub lookup-push {ℓ} :
    {V : Type ℓ} (key k : Bytes) (v : V) (m : Map (List V))
    → lookup key (push_at k v m)
      ≡ (if same k key then some (or_else (lookup key m) [] ++ v ∷ []) else lookup key m)
lookup-push key k v m = lookup-push_at k key v m ∙ ground (arith, same_iff k key)

-- An entry with more values behind those that it has; no entry appears for no value.
abbrev pub with_more {ℓ} : {V : Type ℓ} → Option (List V) → List V → Option (List V)
with_more o [] = o
with_more o (v ∷ vs) = some (or_else o [] ++ (v ∷ vs))

pub with_more-with_more {ℓ} :
    {V : Type ℓ} (o : Option (List V)) (v : V) (vs : List V)
    → with_more (some (or_else o [] ++ v ∷ [])) vs ≡ with_more o (v ∷ vs)
with_more-with_more o v [] = refl
with_more-with_more o v (w ∷ vs) = ap some (append_assoc (or_else o []) (v ∷ []) (w ∷ vs))

-- A value that is pushed on a condition, under one key, seen from another.
pub with_more-push {ℓ} :
    {V : Type ℓ} (pushed : Bool) (key k : Bytes) (v : V) (m : Map (List V)) (vs : List V)
    → with_more (lookup key (if pushed then push_at k v m else m)) vs
      ≡ with_more (lookup key m) (if pushed && same k key then v ∷ vs else vs)
with_more-push false key k v m vs = refl
with_more-push true key k v m vs = elim (Bool-cases (same k key)) [
  | inl e ↦ rw (lookup-push key k v m, e) (with_more-with_more (lookup key m) v vs)
  | inr e ↦ rw (lookup-push key k v m, e)
]

pub with_more-append {ℓ} :
    {V : Type ℓ} (vs ws : List V) → with_more (with_more none vs) ws ≡ with_more none (vs ++ ws)
with_more-append [] ws = refl
with_more-append (v ∷ vs) [] = ap some (sym (append-nil (v ∷ vs)))
with_more-append (v ∷ vs) (w ∷ ws) = refl
