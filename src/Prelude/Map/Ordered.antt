-- ===== src/Prelude/Map/Ordered.antt =====
-- The order of `std::map`: keys that increase. Two ordered maps with the same entries are equal.
use mathlib.Core.Path.{◌≡◌, refl, sym, ◌∙◌, subst}
use mathlib.Core.Logic.{◌≢◌, inl, inr}
use mathlib.Core.Bool.{true, false}
use mathlib.Core.List.{List, [], ◌∷◌}
use mathlib.Core.Option.{none, some}
use native.Mathlib.Omega.{arith}
use threadserver.Prelude.Tests.{is_some, Bool-cases, of_some}
use threadserver.Prelude.Lists.{All}
use threadserver.Prelude.Texts.{Bytes, same, same_iff, before}
use threadserver.Prelude.Map.{Map, lookup, assign, insert, push_at}

before_irrefl : (a : Bytes) → before a a ≡ false
unfolding before
before_irrefl [] = refl
before_irrefl (x ∷ xs) = ground (arith, before_irrefl xs)

before_trans : (a b c : Bytes) → before a b ≡ true → before b c ≡ true → before a c ≡ true
unfolding before
before_trans [] [] c h k = cc
before_trans [] (y ∷ b) [] h k = cc
before_trans [] (y ∷ b) (z ∷ c) h k = refl
before_trans (x ∷ a) [] c h k = cc
before_trans (x ∷ a) (y ∷ b) [] h k = cc
before_trans (x ∷ a) (y ∷ b) (z ∷ c) h k = ground (arith, before_trans a b c)

before_total : (a b : Bytes) → same a b ≡ false → before a b ≡ false → before b a ≡ true
unfolding before same
before_total [] [] h k = cc
before_total [] (y ∷ b) h k = cc
before_total (x ∷ a) [] h k = refl
before_total (x ∷ a) (y ∷ b) h k = ground (arith, before_total a b)

module _ {ℓ} {V : Type ℓ} where
  -- Every key stands behind `k`.
  abbrev After : Bytes → Map V → Type 0
  After k = All (λ e. before k e.0 ≡ true)

  abbrev pub IsOrdered : Map V → Type 0
  IsOrdered [] = Unit
  IsOrdered ((k, v) ∷ m) = After k m × IsOrdered m

  After-assign :
      (j k : Bytes) (v : V) (m : Map V) → before j k ≡ true → After j m → After j (assign k v m)
  unfolding assign
  After-assign j k v [] b h = (b, tt)
  After-assign j k v ((i, w) ∷ m) b h = ground (arith, After-assign j k v m b)

  After-before : (j k : Bytes) (m : Map V) → before j k ≡ true → After k m → After j m
  After-before j k [] b h = tt
  After-before j k ((i, w) ∷ m) b h = (before_trans j k i b h.0, After-before j k m b h.1)

  lookup-After : (k : Bytes) (m : Map V) → After k m → lookup k m ≡ none
  unfolding lookup
  lookup-After k [] h = refl
  lookup-After k ((i, w) ∷ m) h =
      ground (arith, same_iff i k, before_irrefl k, lookup-After k m h.1)

  pub assign-IsOrdered : (k : Bytes) (v : V) (m : Map V) → IsOrdered m → IsOrdered (assign k v m)
  unfolding assign
  assign-IsOrdered k v [] h = (tt, tt)
  assign-IsOrdered k v ((i, w) ∷ m) h = elim (Bool-cases (same i k)) [
    | inl e ↦ rw (e, assign) h
    | inr e ↦ elim (Bool-cases (before k i)) [
      | inl b ↦ rw (e, b) ((b, After-before k i m b h.0), h)
      | inr b ↦
          rw (e, b)
            (
              After-assign i k v m (before_total k i (ground (arith, same_iff i k, same_iff k i)) b)
                  h.0,
              assign-IsOrdered k v m h.1,
            )
    ]
  ]

  pub insert-IsOrdered : (k : Bytes) (v : V) (m : Map V) → IsOrdered m → IsOrdered (insert k v m).0
  unfolding insert
  insert-IsOrdered k v m h = elim (Bool-cases (is_some (lookup k m))) [
    | inl e ↦ rw e h
    | inr e ↦ rw e (assign-IsOrdered k v m h)
  ]

  -- The tails of two ordered maps that start with the same key have the same entries.
  tails-lookup :
      (k : Bytes) (v w : V) (m n : Map V)
      → After k m
      → After k n
      → ((x : Bytes) → lookup x ((k, v) ∷ m) ≡ lookup x ((k, w) ∷ n))
      → (x : Bytes) → lookup x m ≡ lookup x n
  tails-lookup k v w m n p q h x = elim (Bool-cases (same k x)) [
    | inl e ↦
        let at = (same_iff k x).0 e in rw (← at) (lookup-After k m p ∙ sym (lookup-After k n q))
    | inr e ↦ unfold lookup in (rw e at (h x))
  ]

  lookup-head : (k : Bytes) (v : V) (m : Map V) → lookup k ((k, v) ∷ m) ≡ some v
  unfolding lookup
  lookup-head k v m = rw ((same_iff k k).1 refl) refl

  -- Another map that starts behind `j` has no entry for it.
  heads_differ :
      (j k : Bytes) (v w : V) (m n : Map V)
      → before j k ≡ true
      → After k n
      → lookup j ((j, v) ∷ m) ≢ lookup j ((k, w) ∷ n)
  heads_differ j k v w m n b q e =
      let missing = lookup-After j ((k, w) ∷ n) (b, After-before j k n b q) in
      cc (lookup-head j v m, missing)

  same_heads :
      (j k : Bytes) (v w : V) (m n : Map V)
      → j ≡ k
      → After j m
      → After k n
      → ((x : Bytes) → lookup x ((j, v) ∷ m) ≡ lookup x ((k, w) ∷ n))
      → (((x : Bytes) → lookup x m ≡ lookup x n) → m ≡ n)
      → (j, v) ∷ m ≡ (k, w) ∷ n
  same_heads j k v w m n e p q h tails =
      let h' =
        subst (λ (i : Bytes). (x : Bytes) → lookup x ((i, v) ∷ m) ≡ lookup x ((k, w) ∷ n)) e h in
      let value : v ≡ w = of_some (sym (lookup-head k v m) ∙ h' k ∙ lookup-head k w n) in
      cc (e, value, tails (tails-lookup k v w m n (subst (λ (i : Bytes). After i m) e p) q h'))

  pub IsOrdered-ext :
      (m n : Map V) → IsOrdered m → IsOrdered n → ((x : Bytes) → lookup x m ≡ lookup x n) → m ≡ n
  IsOrdered-ext [] [] p q h = refl
  IsOrdered-ext [] ((k, w) ∷ n) p q h = absurd (unfold lookup in cc (h k, lookup-head k w n))
  IsOrdered-ext ((j, v) ∷ m) [] p q h = absurd (unfold lookup in cc (h j, lookup-head j v m))
  IsOrdered-ext ((j, v) ∷ m) ((k, w) ∷ n) p q h = elim (Bool-cases (same j k)) [
    | inl e ↦ same_heads j k v w m n ((same_iff j k).0 e) p.0 q.0 h (IsOrdered-ext m n p.1 q.1)
    | inr e ↦ elim (Bool-cases (before j k)) [
      | inl b ↦ absurd (heads_differ j k v w m n b q.0 (h j))
      | inr b ↦ absurd (heads_differ k j w v n m (before_total j k e b) p.0 (sym (h k)))
    ]
  ]

pub push_at-IsOrdered {ℓ} :
    {V : Type ℓ} (k : Bytes) (v : V) (m : Map (List V)) → IsOrdered m → IsOrdered (push_at k v m)
unfolding push_at
push_at-IsOrdered k v m h = assign-IsOrdered k _ m h
