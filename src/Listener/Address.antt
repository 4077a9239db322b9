-- ===== src/Listener/Address.antt =====
-- The listening address: `Listener_t::parseAddress`.
use threadserver.Prelude.{
  ℕ, ◌≡◌, true, [], ◌∷◌, ◌++◌, ◌<◌, ◌^◌, arith, Bytes, codes, Lacks, All, ok, err, same, is_digit,
  rfind-append, rfind-none, take-length_append, drop-suc_length_append, if◌then◌else◌, ◌==◌,
  decimal, decimal-All,
}
use threadserver.Boost.{Boost, Documented}
use threadserver.Listener.{invalid_listen_address, parse_address}

digits-Lacks : (s : Bytes) → All (λ c. is_digit c ≡ true) s → Lacks b':' s
unfolding is_digit
digits-Lacks [] h = tt
digits-Lacks (c ∷ s) (d, h) = (ground arith, digits-Lacks s h)

module _ (b : Boost) (d : Documented b) where
  -- With conversions as documented, "ip:port" is taken apart at its last colon, whatever the ip
  -- holds: a port below 65536 other than 0 is accepted, the ip "*" becomes empty, and port 0 is
  -- refused.
  pub parse_address-append :
      (ip : Bytes) (port : ℕ)
      → port < 2 ^ 16
      → parse_address b (ip ++ (b':' ∷ decimal port)) ≡ (
          if port == 0
          then err (invalid_listen_address (ip ++ (b':' ∷ decimal port)))
          else ok ((if same ip (codes "*") then [] else ip), port))
  unfolding parse_address
  parse_address-append ip port h = rw (
    rfind-append b':' ip (decimal port) (digits-Lacks (decimal port) (decimal-All port)),
    parse_address,
    drop-suc_length_append ip b':' (decimal port),
    take-length_append ip (b':' ∷ decimal port),
    d.cast_uint16_decimal port h,
  )

  -- A text with no colon is refused.
  pub parse_address-Lacks :
      (address : Bytes)
      → Lacks b':' address
      → parse_address b address ≡ err (invalid_listen_address address)
  unfolding parse_address
  parse_address-Lacks address lacks = rw (rfind-none b':' address lacks, parse_address)
