-- ===== src/Server/Lifetime/Serving.antt =====
-- In which states the calls of `createWorkers`, `run` and `stop` are made, for a server that was
-- registered from a configuration. An accept that is still pending while `stop` runs is no call.
use mathlib.Core.List.{append_assoc}
use mathlib.Core.Path.{subst}
use threadserver.Prelude.{
  ℕ, Bool, false, [], ◌≡◌, refl, sym, true, false, some, is_some, List, [], ◌∷◌, ◌++◌, Bytes, same,
  same_refl, All, Result, ok, Bool-cases, inl, inr, arith,
}
use threadserver.Prelude.Map.{Map, lookup}
use threadserver.Listener.{Listener}
use threadserver.Http.Message.{Exception}
use threadserver.Boost.{Boost}
use threadserver.Configuration.{Configuration}
use threadserver.Server.{Server, Handler, Loader, register}
use threadserver.Server.Wiring.{IsWired, register-IsWired}
use threadserver.Server.Lifetime.Through.{
  names, ServesIn, Through, state, Through-append, Through-weaken, Through-create_workers,
  Through-run, Through-stop,
}
use threadserver.Server.Lifetime.{has, create_workers, run, stop}

has-names :
    (name : Bytes) (hs : Map Handler) → is_some (lookup name hs) ≡ true → has name (names hs) ≡ true
unfolding lookup has
has-names name [] e = cc
has-names name ((n, h) ∷ hs) e = ground (arith, has-names name hs)

has-append : (name : Bytes) (before after : List Bytes) → has name (before ++ (name ∷ after)) ≡ true
unfolding has
has-append name [] after = rw (same_refl name) refl
has-append name (n ∷ before) after = ground (arith, has-append name before after)

All-has : (before ns : List Bytes) → All (λ name. has name (before ++ ns) ≡ true) ns
All-has before [] = tt
All-has before (name ∷ ns) = (
  has-append name before ns,
  subst (λ all. All (λ n. has n all ≡ true) ns) (append_assoc before (name ∷ []) ns)
      (All-has (before ++ name ∷ []) ns),
)

lookup-names :
    (name : Bytes) (ls : Map Listener)
    → has name (names ls) ≡ true
    → (l : Listener) × (lookup name ls ≡ some l)
unfolding lookup has
lookup-names name [] e = cc
lookup-names name ((n, l) ∷ ls) e = elim (Bool-cases (same n name)) [
  | inl here ↦ (l, rw here refl)
  | inr away ↦ let (l', found) = lookup-names name ls (ground arith) in (l', rw away found)
]

-- In a server whose listeners are wired, they serve when all handlers have workers.
wired-ServesIn :
    (server : Server) (addresses : List Bytes)
    → IsWired server
    → All (λ address. has address (names server.listeners) ≡ true) addresses
    → All (ServesIn server.listeners (names server.handlers) (names server.handlers)) addresses
wired-ServesIn server [] wired h = tt
wired-ServesIn server (address ∷ addresses) wired (p, h) =
    let (l, found) = lookup-names address server.listeners p in
    let (at_address, set, there) = wired.wired address l found in
    let is = has-names l.handler_name server.handlers there in
    ((l, found, set, is, is), wired-ServesIn server addresses wired h)

-- From a server whose listeners are wired, through `createWorkers`, `run` and `stop`: before each of
-- their calls and behind the last, every listener that listens is wired to a handler that is there and
-- has its workers; none of the calls uses an acceptor or a thread that was not made, or a handler that
-- is gone, also where `run` throws; and if `run` returned, then behind `stop` nothing listens, no
-- handler is left and the thread of the `io_service` is joined.
Through-stop-run :
    (server : Server) (opens : Listener → Result Exception (Unit {0}))
    → IsWired server
    → let (calls, r) = run server.listeners opens in
      Through server.listeners
        (λ s.
          r ≡ ok tt
          → Through server.listeners
              (λ s'. s' ≡ state server.listeners [] [] [] false)
              (stop server.handlers server.listeners)
              s)
        (create_workers server.handlers ++ calls)
        (state server.listeners (names server.handlers) [] [] false)
unfolding run create_workers
Through-stop-run server opens wired =
    let serves =
      wired-ServesIn server (names server.listeners) wired (All-has [] (names server.listeners)) in
    Through-append server.listeners _ _ _ _ _
      (Through-create_workers server.listeners server.handlers (names server.handlers) []
        (All-has [] (names server.handlers)))
      (Through-weaken server.listeners _ _ _ _
        (λ s ran e.
          subst
            (Through server.listeners (λ s'. s' ≡ state server.listeners [] [] [] false)
              (stop server.handlers server.listeners))
            (sym (ran e)) (Through-stop server.listeners server.handlers server.listeners serves))
        (Through-run server.listeners opens server.listeners (names server.handlers)
          (names server.handlers) [] tt serves))

module _ (b : Boost) (loader : Loader) (can_bind : Bytes → ℕ → Bool) (c : Configuration) where
  -- The server that the constructor registers from a configuration.
  abbrev pub registered : (handles opened : List ℕ) → Server
  registered handles opened =
      (register b loader can_bind c
        (record { handlers = []; handler_handles = handles; opened = opened; listeners = [] })).1

  -- From the registration of what a configuration names, through `createWorkers`, `run` and `stop`:
  -- before each of their calls and behind the last, every listener that listens is wired to a handler
  -- that is there and has its workers; none of the calls uses an acceptor or a thread that was not
  -- made, or a handler that is gone, also where `run` throws; and if `run` returned, then behind `stop`
  -- nothing listens, no handler is left and the thread of the `io_service` is joined.
  pub Through-register :
      (handles opened : List ℕ) (opens : Listener → Result Exception (Unit {0}))
      → let server = registered handles opened in
        let (calls, r) = run server.listeners opens in
        Through server.listeners
          (λ s.
            r ≡ ok tt
            → Through server.listeners
                (λ s'. s' ≡ state server.listeners [] [] [] false)
                (stop server.handlers server.listeners)
                s)
          (create_workers server.handlers ++ calls)
          (state server.listeners (names server.handlers) [] [] false)
  Through-register handles opened opens =
      Through-stop-run (registered handles opened) opens
        (register-IsWired b loader can_bind c handles opened)
