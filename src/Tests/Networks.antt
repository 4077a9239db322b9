-- ===== src/Tests/Networks.antt =====
-- Examples of networks, listeners and the server's loops.
use threadserver.Prelude.{
  ℕ, ◌+◌, ◌*◌, ◌^◌, ◌≡◌, refl, true, some, ◌∷◌, ◌++◌, Bytes, codes, ok, ◌>>=◌, Lacks, decimal,
  arith,
}
use threadserver.Boost.Sample.{sample, sample-Documented, read_v4, octet, after_dot}
use threadserver.Prelude.Decimal.{read_digits, is_digit}
use threadserver.Network.{parse, contains}
use threadserver.Network.Prefix.{contains-parse, parse-prefix, prefix_result}
use threadserver.Tests.{lacks, lacks-Lacks}

abbrev ten : Bytes
ten = codes "10.1.2.3"

abbrev ten_address : ℕ
ten_address = 10 * 2 ^ 24 + 1 * 2 ^ 16 + 2 * 2 ^ 8 + 3

read_ten : sample.from_string ten ≡ some ten_address
unfolding read_v4 octet after_dot read_digits is_digit
read_ten = refl

ten-Lacks : Lacks b'/' ten
unfolding lacks
ten-Lacks = lacks-Lacks b'/' ten refl

contains-parse_example :
    (do net ← parse sample (ten ++ (b'/' ∷ decimal 8)); ok (contains net (10 * 2 ^ 24 + 77)))
    ≡ ok true
contains-parse_example =
    contains-parse sample sample-Documented ten ten_address 8 (10 * 2 ^ 24 + 77) ten-Lacks read_ten
      (omega arith) (omega arith)

parse-prefix_example : parse sample (ten ++ (b'/' ∷ decimal 40)) ≡ prefix_result ten_address 40
parse-prefix_example =
    parse-prefix sample sample-Documented ten ten_address 40 ten-Lacks read_ten (omega arith)
