-- ===== src/Server/Lifetime.antt =====
-- src/threadserver/threadserver.cc: `createWorkers`, `run` and `stop`, with `Listener_t::run` and `stop`,
-- as the calls that they make on the registered handlers and listeners, in their order.
pub mod Through
pub mod Serving
use threadserver.Prelude.{
  ℕ, Bool, true, false, Option, none, some, List, [], ◌∷◌, ◌++◌, map, Bytes, same, Result, ok, err,
  if◌then◌else◌,
}
use threadserver.Prelude.Map.{Map}
use threadserver.Listener.{Listener}
use threadserver.Http.Message.{Exception}
use threadserver.Server.{Handler}

pub data Call : Type 0 where
  create_workers_of run_listener stop_listener delete_handler : Bytes → Call
  start_io_service stop_io_service : Call

-- The handlers and listeners, by their names: the handlers that are there, those that have workers,
-- the listeners with an open acceptor, and whether the thread of the `io_service` runs.
pub record Running : Type 0 where
  pub handlers : List Bytes
  pub working : List Bytes
  pub listening : List Bytes
  pub io_service_runs : Bool

-- A pointer that is used while it is null, or freed.
pub data Undefined : Type 0 where
  null_acceptor no_such_handler null_thread : Undefined

-- Without the first that is `name`.
unfoldable pub removed : Bytes → List Bytes → Option (List Bytes)
removed name [] = none
removed name (n ∷ ns) =
    let rest = removed name ns in
    if same n name then some ns else elim rest [ none ↦ none | some left ↦ some (n ∷ left) ]

unfoldable pub has : Bytes → List Bytes → Bool
has name [] = false
has name (n ∷ ns) = let rest = has name ns in if same n name then true else rest

-- `~CppHttpHandler_t`, as the other handlers' destructors, calls `destroyWorkers`.
abbrev pub deleted : Bytes → Option (List Bytes) → Running → Result Undefined Running
deleted name none s = err no_such_handler
deleted name (some handlers) s = elim (removed name s.working) [
  | none ↦ ok (record s { handlers = handlers })
  | some working ↦ ok (record s { handlers = handlers; working = working })
]

unfoldable pub perform : Call → Running → Result Undefined Running
unfolding removed has
perform (create_workers_of name) s =
    if has name s.handlers
    then ok (record s { working = s.working ++ name ∷ [] })
    else err no_such_handler
perform (run_listener address) s = ok (record s { listening = s.listening ++ address ∷ [] })
perform (stop_listener address) s = elim (removed address s.listening) [
  | none ↦ err null_acceptor
  | some listening ↦ ok (record s { listening = listening })
]
perform (delete_handler name) s = deleted name (removed name s.handlers) s
perform start_io_service s = ok (record s { io_service_runs = true })
perform stop_io_service s =
    if s.io_service_runs then ok (record s { io_service_runs = false }) else err null_thread

abbrev pub ran :
    Bytes
    → Result Exception (Unit {0})
    → List Call × Result Exception (Unit {0})
    → List Call × Result Exception (Unit {0})
ran address (err e) rest = ([], err e)
ran address (ok opened) (calls, r) = (run_listener address ∷ calls, r)

-- The loop of `run`: whatever a listener's `run` throws is thrown again.
abbrev pub run_listeners :
    (Listener → Result Exception (Unit {0}))
    → Map Listener
    → List Call × Result Exception (Unit {0})
run_listeners opens [] = (start_io_service ∷ [], ok tt)
run_listeners opens ((address, l) ∷ ls) = ran address (opens l) (run_listeners opens ls)

-- `run`, given what opening, binding and listening of an acceptor come to.
unfoldable pub run :
    Map Listener
    → (Listener → Result Exception (Unit {0}))
    → List Call × Result Exception (Unit {0})
run listeners opens = run_listeners opens listeners

-- `createWorkers`
unfoldable pub create_workers : Map Handler → List Call
create_workers handlers = map (λ entry. create_workers_of entry.0) handlers

-- `stop`
unfoldable pub stop : Map Handler → Map Listener → List Call
stop handlers listeners =
    map (λ entry. stop_listener entry.0) listeners
    ++ (map (λ entry. delete_handler entry.0) handlers ++ stop_io_service ∷ [])
