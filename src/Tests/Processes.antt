-- ===== src/Tests/Processes.antt =====
-- Examples of configurations, of the guard and of the registration of handlers.
use threadserver.Prelude.{
  inl, inr, before, ◌≡◌, refl, true, false, some, List, [], ◌∷◌, Bytes, codes, ok, arith, All, same,
}
use threadserver.Prelude.Map.{insert, lookup, assign}
use threadserver.Boost.Sample.{sample}
use threadserver.Configuration.{
  read_items, Options, Configuration, started, has_items, configure, read_file, check_names,
}
use threadserver.Server.{
  Handler, Loader, Server, load_handler, use_handle, register_handler, insert_handle, close_all,
  register,
}
use threadserver.Server.Guard.{child_ends, exited, guard, Crash, guard_lem}
use threadserver.Main.{Process}
use threadserver.Server.Wiring.{IsWired, register-IsWired}
use threadserver.Server.Loading.{close_all-load_handler}

abbrev items : List (Bytes × Bytes)
items = (codes "a", codes "1") ∷ (codes "b", codes "2") ∷ (codes "a", codes "3") ∷ []

abbrev options : Options
options = record {
  help = false;
  config_file = codes "f";
  nodetach = false;
  handler_names = codes "h" ∷ [];
  listener_names = codes "l" ∷ [];
  pid_file = [];
}

abbrev configuration : Configuration
configuration = record {
  nodetach = false;
  handler_names = codes "h" ∷ [];
  listener_names = codes "l" ∷ [];
  pid_file = [];
  variables = read_items items [];
}

configured : configure (some options) (λ o. has_items items (some options)) ≡ started configuration
unfolding configure read_file check_names
configured = refl

one-Crash : All Crash ((11, true) ∷ [])
one-Crash = ((omega arith, omega arith, omega arith, omega arith, omega arith), tt)

guard_lem_example :
    (guard 0 (child_ends 139 ∷ child_ends 768 ∷ child_ends 6 ∷ []) ≡ exited 2 3)
    × (guard 0 (child_ends 139 ∷ child_ends 15 ∷ child_ends 6 ∷ []) ≡ exited 2 0)
guard_lem_example =
    guard_lem ((11, true) ∷ []) 3 15 false (child_ends 6 ∷ []) one-Crash (omega arith)
      (inr (inl refl))

-- A loader of one shared object whose handlers are always made.
abbrev loader : Loader
loader = record {
  dlopen = λ filename. some 1;
  has_symbol = λ handle symbol. true;
  create =
      λ handle symbol name worker_count. ok (record { name = name; worker_count = worker_count });
}

register-IsWired_example :
    IsWired
      (register sample loader
        (λ ip port. true)
        configuration
        (record { handlers = []; handler_handles = []; opened = []; listeners = [] })).1
register-IsWired_example = register-IsWired sample loader (λ ip port. true) configuration [] []

abbrev taken : Handler
taken = record { name = codes "h"; worker_count = 2 }

abbrev holds_h : Server
holds_h = record {
  handlers = (codes "h", taken) ∷ [];
  handler_handles = 1 ∷ [];
  opened = 1 ∷ [];
  listeners = [];
}

abbrev parent : Process
parent = record { child_pid = 42; is_running = true; kills = []; reopened = 0 }

abbrev empty_server : Server
empty_server = record { handlers = []; handler_handles = []; opened = []; listeners = [] }

abbrev loaded_one : Server
loaded_one = record {
  handlers = (codes "h", record { name = codes "h"; worker_count = 4 }) ∷ [];
  handler_handles = 1 ∷ [];
  opened = 1 ∷ [];
  listeners = [];
}

abbrev loaded_two : Server
loaded_two = record {
  handlers =
      (codes "h", record { name = codes "h"; worker_count = 4 })
      ∷ (codes "i", record { name = codes "i"; worker_count = 5 })
      ∷ [];
  handler_handles = 1 ∷ [];
  opened = 1 ∷ 1 ∷ [];
  listeners = [];
}

loads_first :
    load_handler loader (codes "h") (codes "f") (codes "s") 4 empty_server ≡ (ok tt, loaded_one)
unfolding load_handler use_handle register_handler insert lookup same assign insert_handle
loads_first = refl

loads_second :
    load_handler loader (codes "i") (codes "f") (codes "t") 5 loaded_one ≡ (ok tt, loaded_two)
unfolding load_handler use_handle register_handler insert lookup same assign insert_handle before
loads_second = refl

close_all-load_handler_example :
    (loaded_two.opened ≡ 1 ∷ 1 ∷ [])
    × (loaded_two.handler_handles ≡ 1 ∷ [])
    × (close_all loaded_two.handler_handles loaded_two.opened ≡ 1 ∷ [])
close_all-load_handler_example =
    close_all-load_handler loader (codes "h") (codes "i") (codes "f") (codes "s") (codes "t") 4 5 1
      empty_server loaded_one loaded_two refl refl refl loads_first loads_second
