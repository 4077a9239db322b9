-- ===== src/Listener.antt =====
-- src/threadserver/listener.cc, include/threadserver/listener.h, src/threadserver/work.cc: one
-- listening address with its access lists, and the sockets that it hands to its handler.
-- The acceptor of Boost.Asio is reduced to what it reports: `can_bind` tells if the trial bind of
-- the constructor succeeds, and an `AcceptEvent` is the outcome of one `async_accept`.
pub mod Access
pub mod Address
pub mod Accepting
use threadserver.Prelude.{
  ℕ, ◌+◌, Bool, true, false, Option, none, some, List, [], ◌∷◌, ◌++◌, Bytes, codes, rfind, same,
  substr, substr_from, Result, ok, err, ◌>>=◌, or_throw, ◌==◌, if◌then◌else◌,
}
use threadserver.Boost.{Boost}
use threadserver.Network.{Network, contains}

pub data ListenError : Type 0 where
  invalid_listen_address : Bytes → ListenError
  bad_port : Bytes → ListenError
  cannot_bind : Bytes → ℕ → ListenError

-- `handler` is the handler's key in the server's map, once it is set.
pub record Listener : Type 0 where
  pub address : Bytes
  pub ip : Bytes
  pub port : ℕ
  pub handler_name : Bytes
  pub allow_first : Bool
  pub allowed : List Network
  pub denied : List Network
  pub handler : Option Bytes

module _ (b : Boost) where
  -- The pair of `ip` and `port`.
  unfoldable pub parse_address : Bytes → Result ListenError (Bytes × ℕ)
  parse_address address = elim (rfind b':' address) [
    | none ↦ err (invalid_listen_address address)
    | some at ↦ do
      port ←
          or_throw (b.cast_uint16 (substr_from address (at + 1)))
            (bad_port (substr_from address (at + 1)))
      if port == 0
          then err (invalid_listen_address address)
          else ok
              ((if same (substr address 0 at) (codes "*") then [] else substr address 0 at), port)
  ]

  -- The constructor. Its initialiser list writes `allowFirst(true)`, whatever the argument is.
  unfoldable pub new_listener :
      (can_bind : Bytes → ℕ → Bool)
      → (address handler_name : Bytes) → (allow_first : Bool) → (allowed denied : List Network)
      → Result ListenError Listener
  new_listener can_bind address handler_name allow_first allowed denied = do
    (ip, port) ← parse_address address
    if can_bind ip port
        then ok (record {
          address = address;
          ip = ip;
          port = port;
          handler_name = handler_name;
          allow_first = true;
          allowed = allowed;
          denied = denied;
          handler = none;
        })
        else err (cannot_bind ip port)

unfoldable pub set_handler : Listener → Bytes → Listener
set_handler l handler = record l { handler = some handler }

-- The remote end of a socket: an IPv4 address, or anything else.
pub data Remote : Type 0 where
  v4 : ℕ → Remote
  other : Bytes → Remote

-- The overload with the reference argument: `value` if a network of the list has the address.
unfoldable pub mark : (result value : Bool) → ℕ → List Network → Bool
mark result value address [] = result
mark result value address (network ∷ networks) =
    if contains network address then value else mark result value address networks

unfoldable pub is_forbidden : Listener → Remote → Bool
is_forbidden l (other address) = true
is_forbidden l (v4 address) =
    if l.allow_first
    then mark (mark true false address l.allowed) true address l.denied
    else mark (mark true true address l.denied) false address l.allowed

-- work.cc: a socket on its way to a worker, with the flag that `accept` sets.
pub record SocketWork : Type 0 where
  pub listener : Bytes
  pub socket : Remote
  pub forbidden : Bool

unfoldable pub new_work : Listener → Remote → SocketWork
new_work l socket = record { listener = l.address; socket = socket; forbidden = false }

-- How an `async_accept` ends; `lost` is a connection whose peer is gone before `isForbidden` asks for
-- its address, which throws.
pub data AcceptEvent : Type 0 where
  accepted : Remote → AcceptEvent
  lost : AcceptEvent
  canceled : AcceptEvent
  failed : AcceptEvent

-- `pending`: an `async_accept` is outstanding. `enqueued`: what the handler was given, in order.
-- `errors`: the lines that `accept` logged. `terminated`: an exception left the thread of the
-- `io_service`, which ends the process.
pub record Acceptor : Type 0 where
  pub pending : Bool
  pub enqueued : List SocketWork
  pub errors : ℕ
  pub terminated : Bool

-- `accept`, called when the outstanding `async_accept` ends.
unfoldable pub accept : Listener → AcceptEvent → Acceptor → Acceptor
unfolding new_work
accept l (accepted socket) s = record s {
  pending = true;
  enqueued = s.enqueued ++ record (new_work l socket) { forbidden = is_forbidden l socket } ∷ [];
}
accept l lost s = record s { pending = false; terminated = true }
accept l canceled s = record s { pending = false }
accept l failed s = record s { pending = false; errors = s.errors + 1 }

-- The io_service calls `accept` only while an accept is outstanding.
unfoldable pub listen : Listener → List AcceptEvent → Acceptor → Acceptor
unfolding accept
listen l [] s = s
listen l (e ∷ events) s = listen l events (if s.pending then accept l e s else s)
