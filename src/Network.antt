-- ===== src/Network.antt =====
-- src/threadserver/network.cc and include/threadserver/network.h: IPv4 networks of the access
-- lists. An `address_v4` is its `to_ulong`, a number below 2^32.
mod Mask
pub mod Prefix
use Prim.Native.Nat.{bit_and}
use threadserver.Prelude.{
  ℕ, ◌+◌, ◌-◌, ◌/◌, ◌%◌, ◌^◌, Bool, Option, none, some, List, [], ◌∷◌, ◌++◌, Bytes, codes, find,
  substr, substr_from, length, Result, ok, err, ◌>>=◌, or_throw, leb, ltb, ◌==◌, if◌then◌else◌,
}
use threadserver.Prelude.Int.{ℤ, pos, negsuc}
use threadserver.Boost.{Boost}

pub record Network : Type 0 where
  pub address : ℕ
  pub netmask : ℕ

-- `bad_lexical_cast`; the `system_error` of `from_string`; a shift by a count below 0 or above
-- 63, which C++ leaves undefined.
pub data NetworkError : Type 0 where
  bad_cast : Bytes → NetworkError
  bad_address : Bytes → NetworkError
  undefined_shift : NetworkError

-- `0x100000000llu >> n` on `uint64_t`
unfoldable pub shift_right : ℤ → Result NetworkError ℕ
shift_right (pos n) = if ltb n 64 then ok (2 ^ 32 / 2 ^ n) else err undefined_shift
shift_right (negsuc n) = err undefined_shift

module _ (b : Boost) where
  -- `netmaskAsInt` with its four bytes printed, the first one whole
  unfoldable pub print_mask : ℕ → Bytes
  print_mask x =
      b.show (x / 2 ^ 24)
      ++ (b'.'
          ∷ (b.show (x / 2 ^ 16 % 256)
              ++ (b'.' ∷ (b.show (x / 2 ^ 8 % 256) ++ (b'.' ∷ b.show (x % 256))))))

  -- the netmask after the slash: one or two characters are a prefix length
  unfoldable pub expand_mask : Bytes → Result NetworkError Bytes
  unfolding shift_right print_mask
  expand_mask netmask =
      if leb (length netmask) 2
      then (do
        bits ← or_throw (b.cast_int netmask) (bad_cast netmask)
        shifted ← shift_right bits
        ok (print_mask (2 ^ 32 - shifted)))
      else ok netmask

  -- `address` and `netmask`, before they are converted
  unfoldable pub split_mask : Bytes → Result NetworkError (Bytes × Bytes)
  unfolding expand_mask
  split_mask text = elim (find b'/' text) [
    | none ↦ ok (text, codes "255.255.255.255")
    | some at ↦ do netmask ← expand_mask (substr_from text (at + 1)); ok (substr text 0 at, netmask)
  ]

  unfoldable pub parse : Bytes → Result NetworkError Network
  unfolding split_mask
  parse text = do
    (address, netmask) ← split_mask text
    a ← or_throw (b.from_string address) (bad_address address)
    m ← or_throw (b.from_string netmask) (bad_address netmask)
    ok (record { address = bit_and a m; netmask = m })

  -- the overload for lists: the first failure ends the loop
  unfoldable pub parse_all : List Bytes → Result NetworkError (List Network)
  unfolding parse
  parse_all [] = ok []
  parse_all (text ∷ texts) = do
    network ← parse text
    networks ← parse_all texts
    ok (network ∷ networks)

unfoldable pub contains : Network → ℕ → Bool
contains network address = bit_and address network.netmask == network.address
