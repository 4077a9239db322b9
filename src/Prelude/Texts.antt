-- ===== src/Prelude/Texts.antt =====
-- Byte strings (`std::string`): lists of numbers, with the operations that the sources call. A
-- position is an `Option`: `none` is `std::string::npos`.
use Prim.Native.Nat.{ℕ, suc, ◌+◌}
use Prim.Native.Char.{code}
use Prim.Native.String.{String}
use mathlib.Core.Path.{◌≡◌, refl, ap}
use mathlib.Core.Logic.{◌≢◌, ◌↔◌}
use mathlib.Core.Bool.{Bool, true, false, ◌&&◌}
use mathlib.Core.List.{List, [], ◌∷◌, ◌++◌}
use mathlib.Core.Option
use mathlib.Core.Option.{Option, none, some}
use native.Mathlib.Omega.{arith}
use threadserver.Prelude.Tests.{ltb, ◌==◌, if◌then◌else◌}
use threadserver.Prelude.Lists.{length, take, drop, All}

abbrev pub Bytes : Type 0
Bytes = List ℕ

-- The code points of a text literal: its bytes, since the sources' literals are ASCII.
abbrev pub codes : String → Bytes
codes String.[] = []
codes (String.◌∷◌ c s) = code c ∷ codes s

-- `a == b`
unfoldable pub same : Bytes → Bytes → Bool
same [] [] = true
same [] (y ∷ ys) = false
same (x ∷ xs) [] = false
same (x ∷ xs) (y ∷ ys) = x == y && same xs ys

pub same_refl : (a : Bytes) → same a a ≡ true
unfolding same
same_refl [] = refl
same_refl (x ∷ xs) = ground (arith, same_refl xs)

pub eq_of_same : (a b : Bytes) → same a b ≡ true → a ≡ b
unfolding same
eq_of_same [] [] h = refl
eq_of_same [] (y ∷ ys) h = cc
eq_of_same (x ∷ xs) [] h = cc
eq_of_same (x ∷ xs) (y ∷ ys) h = ground (arith, eq_of_same xs ys)

pub same_iff : (a b : Bytes) → (same a b ≡ true) ↔ (a ≡ b)
same_iff a b = (eq_of_same a b, λ e. rw e (same_refl b))

-- `a < b`: by unsigned bytes, as `char_traits<char>::compare`
unfoldable pub before : Bytes → Bytes → Bool
before [] [] = false
before [] (y ∷ ys) = true
before (x ∷ xs) [] = false
before (x ∷ xs) (y ∷ ys) = if ltb x y then true else x == y && before xs ys

-- `s.find(c)`
unfoldable pub find : ℕ → Bytes → Option ℕ
find c [] = none
find c (x ∷ xs) = let later = Option.map suc (find c xs) in if x == c then some 0 else later

-- `s.rfind(c)`
unfoldable pub rfind : ℕ → Bytes → Option ℕ
rfind c [] = none
rfind c (x ∷ xs) = elim (rfind c xs) [
  | some i ↦ some (suc i)
  | none ↦ if x == c then some 0 else none
]

-- `s.substr(pos)` and `s.substr(pos, count)`, at positions within the text
abbrev pub substr_from : Bytes → ℕ → Bytes
substr_from s pos = drop pos s

abbrev pub substr : Bytes → ℕ → ℕ → Bytes
substr s pos count = take count (drop pos s)

-- `s.find(p) == 0`
unfoldable pub has_prefix : Bytes → Bytes → Bool
has_prefix [] s = true
has_prefix (x ∷ p) [] = false
has_prefix (x ∷ p) (y ∷ s) = x == y && has_prefix p s

abbrev pub Lacks : ℕ → Bytes → Type 0
Lacks c = All (λ x. x ≢ c)

-- A text is split at its first `c`: what stands before lacks it.
pub find-append : (c : ℕ) (a b : Bytes) → Lacks c a → find c (a ++ c ∷ b) ≡ some (length a)
unfolding find
find-append c [] b h = ground arith
find-append c (x ∷ a) b h = ground (arith, find-append c a b h.1)

pub find-none : (c : ℕ) (a : Bytes) → Lacks c a → find c a ≡ none
unfolding find
find-none c [] h = refl
find-none c (x ∷ a) h = ground (arith, find-none c a h.1)

pub rfind-none : (c : ℕ) (a : Bytes) → Lacks c a → rfind c a ≡ none
unfolding rfind
rfind-none c [] h = refl
rfind-none c (x ∷ a) h = ground (arith, rfind-none c a h.1)

pub rfind-append : (c : ℕ) (a b : Bytes) → Lacks c b → rfind c (a ++ c ∷ b) ≡ some (length a)
unfolding rfind
rfind-append c [] b h = ground (arith, rfind-none c b h)
rfind-append c (x ∷ a) b h = ground (arith, rfind-append c a b h)

pub take-length_append : (a b : Bytes) → take (length a) (a ++ b) ≡ a
take-length_append [] b = refl
take-length_append (x ∷ a) b = ap (◌∷◌ x) (take-length_append a b)

pub drop-length_append : (a b : Bytes) → drop (length a) (a ++ b) ≡ b
drop-length_append [] b = refl
drop-length_append (x ∷ a) b = drop-length_append a b

pub drop-suc_length_append : (a : Bytes) (c : ℕ) (b : Bytes) → drop (length a + 1) (a ++ c ∷ b) ≡ b
drop-suc_length_append [] c b = refl
drop-suc_length_append (x ∷ a) c b =
    let e : length (x ∷ a) + 1 ≡ suc (length a + 1) = omega arith in
    rw e (drop-suc_length_append a c b)
