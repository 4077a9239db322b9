-- ===== src/Network/Prefix.antt =====
-- A network that is written as an address and a prefix length, "10.0.0.0/8".
use native.Mathlib.Nat.{
  pow-suc, div-eq_of_lt, div-eq_of_eq-mul_left, div-lt_iff_lt-mul, mod-eq_of_lt,
  eq_of_mul-eq-mul_right, add-zero, add-suc,
}
use Prim.Native.Nat.{bit_and}
use threadserver.Prelude.{
  ℕ, zero, suc, ◌+◌, ◌-◌, ◌*◌, ◌/◌, ◌%◌, ◌^◌, ◌≤◌, ◌<◌, ◌≡◌, ◌↔◌, ap, ◌∙◌, true, some, ◌∷◌, ◌++◌,
  arith, Bytes, codes, Lacks, find-append, find-none, take-length_append, drop-suc_length_append,
  Result, ok, err, ◌>>=◌, leb, ltb, ◌==◌, ==_iff, if◌then◌else◌,
}
use threadserver.Prelude.Decimal.{decimal, length-decimal_small}
use threadserver.Boost.{Boost, Documented, dotted}
use threadserver.Network.Mask.{bit_and-shifted_ones, pow_pos}
use threadserver.Network.{
  Network, NetworkError, bad_address, undefined_shift, print_mask, expand_mask, split_mask, parse,
  contains,
}

pow_add : (a b : ℕ) → 2 ^ (a + b) ≡ 2 ^ a * 2 ^ b
pow_add a zero = omega (arith, ap (λ (t : ℕ). 2 ^ t) (add-zero a))
pow_add a (suc b) = simp (add-suc, pow-suc) (omega (arith, pow_add a b))

mul_pred : (q p : ℕ) → q * p - q ≡ q * (p - 1)
mul_pred q zero = omega arith
mul_pred q (suc p) = let e : suc p - 1 ≡ p = omega arith in rw e (omega arith)

-- The addresses that agree with `base` above the last `k` bits.
abbrev pub aligned : ℕ → ℕ → Network
aligned base k = record { address = base / 2 ^ k * 2 ^ k; netmask = 2 ^ 32 - 2 ^ k }

pow_split : (n : ℕ) → n ≤ 32 → 2 ^ 32 ≡ 2 ^ (32 - n) * 2 ^ n
pow_split n h =
    let e : 32 ≡ 32 - n + n = omega arith in ap (λ (t : ℕ). 2 ^ t) e ∙ pow_add (32 - n) n

-- The arithmetic of `0x100000000 >> n`.
shift_small : (n : ℕ) → n ≤ 32 → 2 ^ 32 / 2 ^ n ≡ 2 ^ (32 - n)
shift_small n h = div-eq_of_eq-mul_left (pow_pos n) (pow_split n h)

shift_large : (n : ℕ) → 32 < n → 2 ^ 32 / 2 ^ n ≡ 0
shift_large n h =
    let e : n ≡ n - 33 + 33 = omega arith in
    div-eq_of_lt (omega (arith, pow_pos (n - 33), ap (λ (t : ℕ). 2 ^ t) e, pow_add (n - 33) 33))

-- A mask of `n` leading ones keeps the bits above the last 32 - n.
bit_and-leading_ones :
    (a n : ℕ)
    → a < 2 ^ 32
    → n ≤ 32
    → bit_and a (2 ^ 32 - 2 ^ (32 - n)) ≡ a / 2 ^ (32 - n) * 2 ^ (32 - n)
bit_and-leading_ones a n ha hn =
    ap (bit_and a) mask
    ∙ bit_and-shifted_ones (32 - n) n a
    ∙ ap (λ (t : ℕ). t * 2 ^ (32 - n)) (mod-eq_of_lt fits)
  where
    mask : 2 ^ 32 - 2 ^ (32 - n) ≡ 2 ^ (32 - n) * (2 ^ n - 1)
    mask = ap (λ (t : ℕ). t - 2 ^ (32 - n)) (pow_split n hn) ∙ mul_pred (2 ^ (32 - n)) (2 ^ n)

    fits : a / 2 ^ (32 - n) < 2 ^ n
    fits = (div-lt_iff_lt-mul (pow_pos (32 - n))).1 (omega (arith, pow_split n hn))

-- What an address `base` with a prefix length below 100 leads to.
abbrev pub prefix_result : ℕ → ℕ → Result NetworkError Network
prefix_result base n =
    if leb n 32
    then ok (aligned base (32 - n))
    else if ltb n 64
    then err (bad_address (dotted 256 0 0 0))
    else err undefined_shift

module _ (b : Boost) (d : Documented b) where
  print_mask-dotted :
      (x : ℕ) → print_mask b x ≡ dotted (x / 2 ^ 24) (x / 2 ^ 16 % 256) (x / 2 ^ 8 % 256) (x % 256)
  unfolding print_mask
  print_mask-dotted x = simp d.show_decimal

  -- The printed mask is read back, if it fits 32 bits.
  from_string-print_mask : (x : ℕ) → x < 2 ^ 32 → b.from_string (print_mask b x) ≡ some x
  from_string-print_mask x h =
      ap b.from_string (print_mask-dotted x)
      ∙ d.from_string_dotted _ _ _ _ (omega arith) (omega arith) (omega arith) (omega arith)
      ∙ ap some (omega arith)

  -- What `expand_mask` makes of a prefix length.
  abbrev mask_of : ℕ → Result NetworkError Bytes
  mask_of n =
      if leb n 32
      then ok (print_mask b (2 ^ 32 - 2 ^ (32 - n)))
      else if ltb n 64
      then ok (print_mask b (2 ^ 32))
      else err undefined_shift

  expand_mask-decimal : (n : ℕ) → n < 100 → expand_mask b (decimal n) ≡ mask_of n
  unfolding expand_mask
  expand_mask-decimal n h = ground (
    arith,
    length-decimal_small n h,
    d.cast_int_decimal n (omega arith),
    shift_small n,
    shift_large n,
  )

  split_mask-slash :
      (address mask : Bytes)
      → Lacks b'/' address
      → split_mask b (address ++ (b'/' ∷ mask)) ≡ (do m ← expand_mask b mask; ok (address, m))
  unfolding split_mask
  split_mask-slash address mask h = rw (
    find-append b'/' address mask h,
    split_mask,
    drop-suc_length_append address b'/' mask,
    take-length_append address (b'/' ∷ mask),
  )

  split_mask-host :
      (address : Bytes)
      → Lacks b'/' address
      → split_mask b address ≡ ok (address, codes "255.255.255.255")
  unfolding split_mask
  split_mask-host address h = rw (find-none b'/' address h, split_mask)

  -- With conversions as documented, and `address` a text with no slash that is read as `base`:
  -- "address/n" is the network of the first n bits of `base` for n up to 32. Above, the text is
  -- refused: up to 63 by the conversion of "256.0.0.0", and from 64 to 99 the program shifts by the
  -- width of the number or more.
  pub parse-prefix :
      (address : Bytes) (base n : ℕ)
      → Lacks b'/' address
      → b.from_string address ≡ some base
      → n < 100
      → parse b (address ++ (b'/' ∷ decimal n)) ≡ prefix_result base n
  unfolding parse
  parse-prefix address base n lacks read small =
      rw (split_mask-slash address (decimal n) lacks, parse, expand_mask-decimal n small)
        (ground (
          arith,
          read,
          pow_pos (32 - n),
          from_string-print_mask (2 ^ 32 - 2 ^ (32 - n)) (omega (arith, pow_pos (32 - n))),
          bit_and-leading_ones base n (d.from_string_bound address base read),
          print_mask-dotted (2 ^ 32),
          d.from_string_large 256 0 0 0,
        ))

-- The network of the first n bits of `base` holds exactly the addresses that agree with `base` in
-- those bits.
pub contains-aligned :
    (base n a : ℕ)
    → n ≤ 32
    → a < 2 ^ 32
    → (contains (aligned base (32 - n)) a ≡ true) ↔ (a / 2 ^ (32 - n) ≡ base / 2 ^ (32 - n))
unfolding contains
contains-aligned base n a hn ha = rw (bit_and-leading_ones a n ha hn) (
  λ h. eq_of_mul-eq-mul_right (2 ^ (32 - n)) (pow_pos (32 - n)) _ _ ((==_iff _ _).0 h),
  λ e. (==_iff _ _).1 (ap (λ (t : ℕ). t * 2 ^ (32 - n)) e),
)

module _ (b : Boost) (d : Documented b) where
  -- With conversions as documented, and `address` a text with no slash that is read as `base`:
  -- "address/n" with n up to 32 is accepted, and its network contains exactly the addresses that
  -- agree with `base` in the first n bits.
  pub contains-parse :
      (address : Bytes) (base n a : ℕ)
      → Lacks b'/' address
      → b.from_string address ≡ some base
      → n ≤ 32
      → a < 2 ^ 32
      → (do net ← parse b (address ++ (b'/' ∷ decimal n)); ok (contains net a))
        ≡ ok (a / 2 ^ (32 - n) == base / 2 ^ (32 - n))
  contains-parse address base n a lacks read le fits =
      rw (parse-prefix b d address base n lacks read (omega arith))
        (ground (arith, contains-aligned base n a le fits))

  -- With conversions as documented, an address with no slash that can be read is accepted, and its
  -- network contains that address alone.
  contains-parse_host :
      (address : Bytes) (base a : ℕ)
      → Lacks b'/' address
      → b.from_string address ≡ some base
      → a < 2 ^ 32
      → (do net ← parse b address; ok (contains net a)) ≡ ok (a == base)
  unfolding parse decimal
  contains-parse_host address base a lacks read fits =
      rw (split_mask-host b d address lacks, parse)
        (ground (
          arith,
          read,
          d.from_string_dotted 255 255 255 255,
          bit_and-leading_ones base 32 (d.from_string_bound address base read),
          contains-aligned base 32 a (omega arith) fits,
        ))
