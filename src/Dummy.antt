-- ===== src/Dummy.antt =====
-- src/handlers/dummyhandler/dummyhandler.cc: a handler whose workers answer every request by one text.
-- The calls of Boost.Asio on the socket, and `nanosleep`, are parameters.
pub mod Answers
use threadserver.Prelude.{ℕ, Bytes, codes, ◌++◌}
use threadserver.Prelude.Exec.{Exec, modify, ◌>>=◌, ◌>>◌}
use threadserver.Listener.{SocketWork}
use threadserver.Http.Message.{Exception}

pub record Connection : Type 1 where
  pub Io : Type 0
  -- `read_until(socket, request, delimiter)`: what is in the buffer when it returns
  pub read_until : (delimiter : Bytes) → Exec Io Exception Bytes
  -- `nanosleep` for so many nanoseconds
  pub sleep : ℕ → Io → Io
  -- `write(socket, buffer(text))`
  pub write : Bytes → Exec Io Exception (Unit {0})

abbrev pub hello_text : Bytes
hello_text =
    codes "HTTP/1.1 200 OK\r\nContent-Type: text/plain\r\n"
    ++ codes "Connection: close\r\n\r\nHello World!\r\n"

module _ (c : Connection) where
  open c use {Io, read_until, sleep, write}

  -- `Worker_t::handle`; it does not look at `socket->forbidden`.
  unfoldable pub handle : SocketWork → Exec Io Exception (Unit {0})
  handle socket = do
    request ← read_until (codes "\r\n\r\n")
    modify (sleep 10000000)
    write hello_text
