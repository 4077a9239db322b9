-- ===== src/Http/Library.antt =====
-- What the HTTP handler calls of other libraries: `FRPC::HTTPIO_t` over a socket, `FRPC::HTTPHeader_t`
-- and `boost::regex`. Nothing is assumed of them.
use threadserver.Prelude.{ℕ, Option, List, Bytes}
use threadserver.Prelude.Exec.{Exec}
use threadserver.Http.Message.{Exception}

pub record Library : Type 1 where
  pub Header : Type 0
  pub Io : Type 0
  pub Regex : Type 0
  pub no_headers : Header
  -- `headers.get(name, value)`: the new value of `value`
  pub header_get : Header → (name value : Bytes) → Bytes
  -- `headers.set(name, value)`
  pub header_set : Header → (name value : Bytes) → Header
  -- `output << headers`
  pub print_headers : Header → Bytes
  pub read_line : Exec Io Exception Bytes
  pub split_by_space : Bytes → ℕ → List Bytes
  pub read_header : Exec Io Exception Header
  -- `readContent`: what the data sink was given
  pub read_content : Header → Exec Io Exception Bytes
  -- `sendData(text, size, false)` and `sendData(text)`
  pub send_raw : Bytes → Exec Io Exception (Unit {0})
  pub send_data : Bytes → Exec Io Exception (Unit {0})
  -- `regex_match` of a whole text: the groups from 1 on
  pub regex_match : Regex → Bytes → Option (List Bytes)
