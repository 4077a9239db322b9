-- ===== src/Prelude/Decimal.antt =====
-- Decimal numerals: what `lexical_cast` prints and reads.
use Prim.Native.Nat.{ℕ, zero, suc, ◌+◌, ◌-◌, ◌*◌, ◌/◌, ◌%◌, ◌≤◌, ◌<◌}
use mathlib.Core.Path.{◌≡◌, refl, subst}
use mathlib.Core.Logic.{inl, inr}
use mathlib.Core.Bool.{Bool, true, ◌&&◌}
use mathlib.Core.List.{[], ◌∷◌, ◌++◌}
use native.Mathlib.Omega.{arith}
use threadserver.Prelude.Tests.{Bool-cases, leb, ltb, if◌then◌else◌}
use threadserver.Prelude.Lists.{length, All}
use threadserver.Prelude.Texts.{Bytes}

decimal_from : ℕ → ℕ → Bytes → Bytes
decimal_from zero n rest = (48 + n % 10) ∷ rest
decimal_from (suc f) n rest =
    let more = decimal_from f (n / 10) ((48 + n % 10) ∷ rest) in
    if ltb n 10 then (48 + n) ∷ rest else more

-- The numeral of `n`, with no leading zero. A number has fewer digits than its value plus one.
unfoldable pub decimal : ℕ → Bytes
unfolding decimal_from
decimal n = decimal_from n n []

unfoldable pub is_digit : ℕ → Bool
is_digit c = leb b'0' c && leb c b'9'

-- Reads the digits at the front, and gives their value and what follows.
unfoldable pub read_digits : ℕ → Bytes → ℕ × Bytes
unfolding is_digit
read_digits n [] = (n, [])
read_digits n (c ∷ s) =
    let more = read_digits (n * 10 + (c - 48)) s in if is_digit c then more else (n, c ∷ s)

decimal_from-append :
    (f n : ℕ) (rest more : Bytes) → decimal_from f n rest ++ more ≡ decimal_from f n (rest ++ more)
unfolding decimal_from
decimal_from-append zero n rest more = refl
decimal_from-append (suc f) n rest more =
    ground (arith, decimal_from-append f (n / 10) ((48 + n % 10) ∷ rest) more)

read_digits-decimal_from :
    (f n : ℕ) (rest : Bytes) → n ≤ f → read_digits 0 (decimal_from f n rest) ≡ read_digits n rest
unfolding decimal_from read_digits
read_digits-decimal_from zero n rest h = ground arith
read_digits-decimal_from (suc f) n rest h =
    ground (arith, read_digits-decimal_from f (n / 10) ((48 + n % 10) ∷ rest))

-- A printed number is read back, whatever follows it.
pub read_digits-decimal :
    (n : ℕ) (rest : Bytes) → read_digits 0 (decimal n ++ rest) ≡ read_digits n rest
unfolding decimal
read_digits-decimal n rest =
    rw (decimal_from-append n n [] rest) (read_digits-decimal_from n n rest (omega arith))

decimal_from-All :
    (f n : ℕ) (rest : Bytes)
    → All (λ c. is_digit c ≡ true) rest
    → All (λ c. is_digit c ≡ true) (decimal_from f n rest)
unfolding decimal_from is_digit
decimal_from-All zero n rest h = (ground arith, h)
decimal_from-All (suc f) n rest h =
    ground (arith, decimal_from-All f (n / 10) ((48 + n % 10) ∷ rest))

-- A numeral has digits alone.
pub decimal-All : (n : ℕ) → All (λ c. is_digit c ≡ true) (decimal n)
unfolding decimal
decimal-All n = decimal_from-All n n [] tt

-- Numbers below 100 have at most two digits.
pub length-decimal_small : (n : ℕ) → n < 100 → length (decimal n) ≤ 2
unfolding decimal decimal_from
length-decimal_small zero h = omega arith
length-decimal_small (suc zero) h = omega arith
length-decimal_small (suc (suc f)) h = ground arith

decimal_from-cons :
    (f n : ℕ) (rest : Bytes) → (c : ℕ) × (s : Bytes) × (decimal_from f n rest ≡ c ∷ s)
unfolding decimal_from
decimal_from-cons zero n rest = (48 + n % 10, rest, refl)
decimal_from-cons (suc f) n rest =
    let (c, s, e) = decimal_from-cons f (n / 10) ((48 + n % 10) ∷ rest) in
    elim (Bool-cases (ltb n 10)) [
      | inl small ↦ (48 + n, rest, rw small refl)
      | inr large ↦ (c, s, rw large e)
    ]

-- A numeral begins with a digit.
pub decimal-cons : (n : ℕ) → (c : ℕ) × (s : Bytes) × (decimal n ≡ c ∷ s) × (is_digit c ≡ true)
unfolding decimal
decimal-cons n =
    let (c, s, e) = decimal_from-cons n n [] in
    (c, s, e, (subst (All (λ c. is_digit c ≡ true)) e (decimal-All n)).0)
