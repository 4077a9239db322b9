-- ===== src/Boost/Sample.antt =====
-- Concrete conversions with the documented behaviour, for the examples.
use threadserver.Prelude.{
  ℕ, ◌+◌, ◌*◌, ◌^◌, ◌<◌, ◌≤◌, ◌≡◌, refl, ap, [], ◌∷◌, ◌++◌, Option, none, some, arith, Bytes, ltb,
  ◌==◌, if◌then◌else◌, is_empty, decimal, read_digits, is_digit, read_digits-decimal,
}
use threadserver.Prelude.Int.{pos}
use threadserver.Boost.{Boost, Documented, dotted}
use mathlib.Core.List.{append-nil}

infixl 5 ◌>>=◌
abbrev ◌>>=◌ : {A B : Type 0} → Option A → (A → Option B) → Option B
none >>= f = none
some a >>= f = f a

-- A whole text of digits, below a bound.
unfoldable pub number_below : ℕ → Bytes → Option ℕ
number_below bound s =
    let (n, rest) = read_digits 0 s in
    if is_empty rest then (if ltb n bound then some n else none) else none

unfoldable pub octet : Bytes → Option (ℕ × Bytes)
octet s = let (n, rest) = read_digits 0 s in if ltb n 256 then some (n, rest) else none

unfoldable pub after_dot : Bytes → Option Bytes
after_dot [] = none
after_dot (c ∷ s) = if c == b'.' then some s else none

unfoldable pub read_v4 : Bytes → Option ℕ
read_v4 s = do
  (x, s1) ← octet s
  s2 ← after_dot s1
  (y, s3) ← octet s2
  s4 ← after_dot s3
  (z, s5) ← octet s4
  s6 ← after_dot s5
  (t, s7) ← octet s6
  if is_empty s7 then some (x * 2 ^ 24 + y * 2 ^ 16 + z * 2 ^ 8 + t) else none

abbrev pub sample : Boost
sample = record {
  cast_int = λ s. number_below (2 ^ 31) s >>= λ n. some (pos n);
  cast_uint16 = number_below (2 ^ 16);
  cast_size = number_below (2 ^ 64);
  show = decimal;
  from_string = read_v4;
}

number_below-decimal : (bound n : ℕ) → n < bound → number_below bound (decimal n) ≡ some n
unfolding number_below read_digits
number_below-decimal bound n h =
    ground (arith, ap (read_digits 0) (append-nil (decimal n)), read_digits-decimal n [])

octet-decimal :
    (n : ℕ) (rest : Bytes)
    → octet (decimal n ++ (b'.' ∷ rest)) ≡ (if ltb n 256 then some (n, b'.' ∷ rest) else none)
unfolding octet read_digits is_digit
octet-decimal n rest = ground (arith, read_digits-decimal n (b'.' ∷ rest))

octet-decimal_end : (n : ℕ) → octet (decimal n) ≡ (if ltb n 256 then some (n, []) else none)
unfolding octet read_digits
octet-decimal_end n =
    ground (arith, ap (read_digits 0) (append-nil (decimal n)), read_digits-decimal n [])

read_v4-dotted :
    (x y z t : ℕ)
    → x < 256
    → y < 256
    → z < 256
    → t < 256
    → read_v4 (dotted x y z t) ≡ some (x * 2 ^ 24 + y * 2 ^ 16 + z * 2 ^ 8 + t)
unfolding read_v4 after_dot
read_v4-dotted x y z t hx hy hz ht = ground (
  arith,
  octet-decimal x (decimal y ++ (b'.' ∷ (decimal z ++ (b'.' ∷ decimal t)))),
  octet-decimal y (decimal z ++ (b'.' ∷ decimal t)),
  octet-decimal z (decimal t),
  octet-decimal_end t,
)

read_v4-large : (x y z t : ℕ) → 256 ≤ x → read_v4 (dotted x y z t) ≡ none
unfolding read_v4
read_v4-large x y z t h = rw (octet-decimal x) (ground arith)

read_v4-bound : (s : Bytes) (a : ℕ) → read_v4 s ≡ some a → a < 2 ^ 32
unfolding read_v4 octet
read_v4-bound s a h = ground arith

pub sample-Documented : Documented sample
sample-Documented = record {
  show_decimal = λ n. refl;
  cast_int_decimal =
      λ n h. ap (λ (o : Option ℕ). o >>= λ n. some (pos n)) (number_below-decimal (2 ^ 31) n h);
  cast_uint16_decimal = number_below-decimal (2 ^ 16);
  from_string_dotted = read_v4-dotted;
  from_string_large = read_v4-large;
  from_string_bound = read_v4-bound;
}
