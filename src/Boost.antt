-- ===== src/Boost.antt =====
-- The conversions of Boost that the server calls, as parameters: `boost::lexical_cast` and
-- `boost::asio::ip::address_v4::from_string`. `none` is the exception that they throw.
pub mod Sample
use threadserver.Prelude.{ℕ, ◌+◌, ◌*◌, ◌^◌, ◌≤◌, ◌<◌, ◌≡◌, ◌++◌, ◌∷◌, Option, none, some, Bytes}
use threadserver.Prelude.Int.{ℤ, pos}
use threadserver.Prelude.Decimal.{decimal}

pub record Boost : Type 0 where
  -- `lexical_cast<int>`, `lexical_cast<uint16_t>`, `lexical_cast<size_t>`
  pub cast_int : Bytes → Option ℤ
  pub cast_uint16 : Bytes → Option ℕ
  pub cast_size : Bytes → Option ℕ
  -- `lexical_cast<std::string>` of an unsigned number
  pub show : ℕ → Bytes
  -- `address_v4::from_string(s).to_ulong()`
  pub from_string : Bytes → Option ℕ

-- Four numerals with dots between them.
abbrev pub dotted : ℕ → ℕ → ℕ → ℕ → Bytes
dotted a b c d = decimal a ++ (b'.' ∷ (decimal b ++ (b'.' ∷ (decimal c ++ (b'.' ∷ decimal d)))))

-- What Boost documents of these calls: numbers are printed and read in decimal, and an IPv4
-- address is four numbers below 256 with dots between them, or is refused.
pub record Documented (b : Boost) : Type 0 where
  pub show_decimal : (n : ℕ) → b.show n ≡ decimal n
  pub cast_int_decimal : (n : ℕ) → n < 2 ^ 31 → b.cast_int (decimal n) ≡ some (pos n)
  pub cast_uint16_decimal : (n : ℕ) → n < 2 ^ 16 → b.cast_uint16 (decimal n) ≡ some n
  pub from_string_dotted :
      (x y z t : ℕ)
      → x < 256
      → y < 256
      → z < 256
      → t < 256
      → b.from_string (dotted x y z t) ≡ some (x * 2 ^ 24 + y * 2 ^ 16 + z * 2 ^ 8 + t)
  pub from_string_large : (x y z t : ℕ) → 256 ≤ x → b.from_string (dotted x y z t) ≡ none
  pub from_string_bound : (s : Bytes) (a : ℕ) → b.from_string s ≡ some a → a < 2 ^ 32
