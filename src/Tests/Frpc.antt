-- ===== src/Tests/Frpc.antt =====
-- Examples of sockets that the FRPC handler is given, over the connections of the examples of requests.
use threadserver.Prelude.{
  ℕ, ◌+◌, ◌≡◌, refl, true, none, some, [], ◌∷◌, Bytes, codes, err, Option, same, if◌then◌else◌,
  find, decimal,
}
use threadserver.Prelude.Int.{ℤ, pos, negsuc}
use threadserver.Prelude.Exec.{Exec}
use threadserver.Listener.{SocketWork}
use threadserver.Frpc.{World, Thrown, unknown, Entry}
use threadserver.Errors.{c_str}
use threadserver.Http.Worker.{show_int}
use threadserver.Frpc.Callbacks.{pre_process, post_process_fault}
use threadserver.Modules.Settings.{FrpcSettings}
use threadserver.Tests.Requests.{wire, socket}

abbrev world : World wire
world = record { io = (codes "call" ∷ [], []); headers_in = none; headers_out = none; work = none }

abbrev forbidden_socket : SocketWork
forbidden_socket = record socket { forbidden = true }

-- A pool that counts its structs, and a method that throws a value of an unknown type.
abbrev status : ℤ → Bytes → ℕ → ℕ × ℕ
status code text pool = (pool, pool + 1)

abbrev throws : Exec ℕ Thrown ℕ
throws pool = (err unknown, pool + 1)

abbrev settings : FrpcSettings
settings = record {
  read_timeout = pos 10000;
  write_timeout = pos 10000;
  keep_alive = true;
  max_keep_alive = pos 100;
  introspection_enabled = true;
  help_directory = codes "help";
}

-- The file of the one method that has a help text.
abbrev open_file : Bytes → Option Bytes
open_file name = if same name (codes "help/ping") then some (codes "Pings.") else none

abbrev ping : Entry ℕ
ping = record { method_name = codes "ping"; method = 1; signature = []; help = codes "Pings." }

abbrev pong : Entry ℕ
pong = record { method_name = codes "pong"; method = 2; signature = []; help = [] }

called :
    (pre_process {Value = Bytes}
      (λ value. value)
      (codes "ping")
      (codes "10.0.0.1")
      (codes "1, 2")).text
    ≡ codes "Calling method ping(1, 2) from IP: 10.0.0.1"
unfolding pre_process c_str find
called = refl

failed :
    (post_process_fault
      (codes "ping")
      (record { error_num = negsuc 500; message = codes "no" })
      (record { second = pos 0; usecond = pos 12 })).text
    ≡ codes "Method: ping returned fault (-501 no) after 0 secondes and 12 microseconds"
unfolding post_process_fault c_str find show_int decimal
failed = refl
