-- ===== src/Network/Mask.antt =====
-- What `&` with a netmask of leading ones keeps.
use Prim.Native.Nat.{min, bit_and, digits, bit_and-bitwise}
use threadserver.Prelude.{
  ℕ, zero, suc, ◌+◌, ◌-◌, ◌*◌, ◌/◌, ◌%◌, ◌^◌, ◌≤◌, ◌<◌, ◌≡◌, refl, ap, ◌∙◌, arith,
}
use mathlib.Core.Path.{◌≡⟨◌⟩◌, ◌∎}
use native.Mathlib.Nat.{
  pow-suc, mul_comm, div-add-mod', mul-add-mod_self_right, mod-eq_of_lt, mod-lt, div-one,
  div-div-eq-div-mul,
}

-- The recursion over digits that `bit_and` stands for. Fuel that reaches `a` is as good as one more,
-- and so as any greater fuel.
abbrev common_digits : (fuel : ℕ) → ℕ → ℕ → ℕ
common_digits = digits (λ y. zero) min

common_digits-suc :
    (fuel x y : ℕ) → x ≤ fuel → common_digits (suc fuel) x y ≡ common_digits fuel x y
common_digits-suc zero zero y le = refl
common_digits-suc (suc fuel) zero y le = refl
common_digits-suc zero (suc x) y le = absurd (omega arith)
common_digits-suc (suc fuel) (suc x) y le =
    omega (arith, common_digits-suc fuel (suc x / 2) (y / 2) (omega arith))

common_digits-add :
    (more fuel x y : ℕ) → x ≤ fuel → common_digits (more + fuel) x y ≡ common_digits fuel x y
common_digits-add zero fuel x y le = ap (λ (n : ℕ). common_digits n x y) (omega arith)
common_digits-add (suc more) fuel x y le =
    ap (λ (n : ℕ). common_digits n x y) {y = suc (more + fuel)} (omega arith)
    ∙ common_digits-suc (more + fuel) x y (omega arith)
    ∙ common_digits-add more fuel x y le

common_digits-zero : (fuel x : ℕ) → common_digits fuel x 0 ≡ 0
common_digits-zero zero x = refl
common_digits-zero (suc fuel) zero = refl
common_digits-zero (suc fuel) (suc x) = omega (arith, common_digits-zero fuel (suc x / 2))

bit_and-zero : (a : ℕ) → bit_and a 0 ≡ 0
bit_and-zero a = bit_and-bitwise a 0 ∙ common_digits-zero a a

-- The law for the lowest digit.
bit_and-halves : (a b : ℕ) → bit_and a b ≡ bit_and (a / 2) (b / 2) * 2 + min (a % 2) (b % 2)
bit_and-halves zero b = omega (arith, bit_and-bitwise 0 b, bit_and-bitwise 0 (b / 2))
bit_and-halves (suc a) b =
    let half = suc a / 2 in
    let le : half ≤ a = omega arith in
    let enough : common_digits a half (b / 2) ≡ common_digits half half (b / 2) =
      ap (λ (fuel : ℕ). common_digits fuel half (b / 2)) (omega arith)
      ∙ common_digits-add (a - half) half half (b / 2) (omega arith) in
    omega (arith, enough, bit_and-bitwise (suc a) b, bit_and-bitwise half (b / 2))

mod_double : (p x : ℕ) → 0 < p → x % (p * 2) ≡ x / 2 % p * 2 + x % 2
mod_double p x h =
    x % (p * 2)
    ≡⟨ ap (λ (t : ℕ). t % (p * 2)) whole ⟩ (x / 2 / p * (p * 2) + low) % (p * 2)
    ≡⟨ mul-add-mod_self_right (x / 2 / p) (p * 2) low ⟩ low % (p * 2)
    ≡⟨ mod-eq_of_lt low-lt ⟩ low ∎
  where
    low : ℕ
    low = x / 2 % p * 2 + x % 2

    whole : x ≡ x / 2 / p * (p * 2) + low
    whole = omega (arith, div-add-mod' (x / 2) p)

    low-lt : low < p * 2
    low-lt = omega (arith, mod-lt (x / 2) h)

pub pow_pos : (m : ℕ) → 0 < 2 ^ m
pow_pos zero = omega arith
pow_pos (suc m) = omega (arith, pow_pos m, pow-suc 2 m)

-- A mask of `m` ones keeps the last `m` digits.
bit_and-ones : (m a : ℕ) → bit_and a (2 ^ m - 1) ≡ a % 2 ^ m
bit_and-ones zero a = bit_and-zero a ∙ omega arith
bit_and-ones (suc m) a = rw (pow-suc 2 m) (
    omega (
      arith,
      pow_pos m,
      bit_and-halves a (2 ^ m * 2 - 1),
      ap (bit_and (a / 2)) half,
      bit_and-ones m (a / 2),
      mod_double (2 ^ m) a (pow_pos m),
    ))
  where
    half : (2 ^ m * 2 - 1) / 2 ≡ 2 ^ m - 1
    half = omega (arith, pow_pos m)

-- A mask of `m` ones above `k` zeros keeps `m` digits where they stand.
pub bit_and-shifted_ones :
    (k m a : ℕ) → bit_and a (2 ^ k * (2 ^ m - 1)) ≡ (a / 2 ^ k % 2 ^ m) * 2 ^ k
bit_and-shifted_ones zero m a =
    omega (arith, ap (bit_and a) one_mul, bit_and-ones m a, ap (λ (t : ℕ). t % 2 ^ m) (div-one a))
  where
    one_mul : 1 * (2 ^ m - 1) ≡ 2 ^ m - 1
    one_mul = omega arith
bit_and-shifted_ones (suc k) m a = rw (pow-suc 2 k) (
    omega (
      arith,
      bit_and-halves a (2 ^ k * 2 * (2 ^ m - 1)),
      ap (bit_and (a / 2)) half,
      even,
      bit_and-shifted_ones k m (a / 2),
      ap (λ (t : ℕ). t % 2 ^ m * 2 ^ k) halves,
    ))
  where
    half : 2 ^ k * 2 * (2 ^ m - 1) / 2 ≡ 2 ^ k * (2 ^ m - 1)
    half = grind arith

    even : 2 ^ k * 2 * (2 ^ m - 1) % 2 ≡ 0
    even = grind arith

    halves : a / 2 / 2 ^ k ≡ a / (2 ^ k * 2)
    halves = div-div-eq-div-mul a 2 (2 ^ k) ∙ ap (λ (t : ℕ). a / t) (mul_comm 2 (2 ^ k))
