-- ===== src/Tests/Listeners.antt =====
-- Examples of listeners and of the addresses that they are given.
use threadserver.Prelude.{
  ◌+◌, ◌*◌, ◌^◌, ◌-◌, ◌≡◌, refl, true, false, none, [], ◌∷◌, ◌++◌, map, codes, ok, rfind, same,
}
use threadserver.Boost.Sample.{sample, number_below}
use threadserver.Prelude.Decimal.{read_digits, is_digit}
use threadserver.Network.{Network, contains}
use threadserver.Listener.{
  Listener, parse_address, new_listener, v4, other, is_forbidden, accepted, listen,
}
use threadserver.Listener.Access.{is_forbidden-new_listener}
use threadserver.Listener.Accepting.{listen_lem, waiting, screened, by_failure, ending}

-- 10.0.0.0/8, and one address of it.
abbrev pub ten_net : Network
ten_net = record { address = 10 * 2 ^ 24; netmask = 255 * 2 ^ 24 }

abbrev pub ten_one : Network
ten_one = record { address = 10 * 2 ^ 24 + 1; netmask = 2 ^ 32 - 1 }

abbrev pub local : Listener
local = record {
  address = codes "*:80";
  ip = [];
  port = 80;
  handler_name = codes "a";
  allow_first = true;
  allowed = ten_net ∷ [];
  denied = ten_one ∷ [];
  handler = none;
}

pub local_lem :
    new_listener sample
      (λ ip port. true)
      (codes "*:80")
      (codes "a")
      false
      (ten_net ∷ [])
      (ten_one ∷ [])
    ≡ ok local
unfolding new_listener parse_address number_below read_digits is_digit rfind same
local_lem = refl

is_forbidden-new_listener_example : is_forbidden local (v4 (10 * 2 ^ 24 + 1)) ≡ true
unfolding contains
is_forbidden-new_listener_example =
    is_forbidden-new_listener sample (λ ip port. true) (codes "*:80") (codes "a") false
      (ten_net ∷ []) (ten_one ∷ []) local (v4 (10 * 2 ^ 24 + 1)) local_lem

listen_lem_example :
    listen local
      (map accepted (v4 1 ∷ other [] ∷ []) ++ (ending by_failure ∷ accepted (v4 2) ∷ []))
      (waiting [] 0)
    ≡ record {
      pending = false;
      enqueued = screened local (v4 1) ∷ screened local (other []) ∷ [];
      errors = 1;
      terminated = false;
    }
listen_lem_example = listen_lem local (v4 1 ∷ other [] ∷ []) by_failure (accepted (v4 2) ∷ []) [] 0
