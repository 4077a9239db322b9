-- ===== src/Http/Thread.antt =====
-- src/threadserver/handler.cc and src/handlers/cpphttphandler/cpphttphandler.cc: a thread of the HTTP
-- handler, `Handler_t::run`, from the making of its worker, whose module registers the methods, to its
-- end.
pub mod Registered
use threadserver.Prelude.{Bytes, Option, List, [], ◌∷◌, ◌++◌, Result, ok, err}
use threadserver.Prelude.Exec.{Exec, pure, lift, modify, ◌>>=◌, ◌>>◌}
use threadserver.Listener.{SocketWork}
use threadserver.Http.Message.{Exception}
use threadserver.Http.Library.{Library}
use threadserver.Http.Worker.{World, Method, Registry}
use threadserver.Http.Worker.Handle.{handle}
use threadserver.Workers.{Report, run}

-- An exception that leaves the function of a thread ends the process.
pub data ThreadEnd : Type 0 where
  returned : ThreadEnd
  terminated : Exception → ThreadEnd

module _ (lib : Library) (regex_of : Bytes → Result Exception lib.Regex) where
  -- `registerMethod`; making the expression of a location may throw.
  unfoldable pub register_method :
      (location : Bytes) → Method lib → Exec (Registry lib) Exception (Unit {0})
  register_method location method = do
    regex ← lift (regex_of location)
    modify (λ registry. registry ++ (regex, method) ∷ [])

  -- A module's `threadCreate` that registers methods one after another.
  unfoldable pub register_all : List (Bytes × Method lib) → Exec (Registry lib) Exception (Unit {0})
  unfolding register_method
  register_all [] = pure tt
  register_all ((location, method) ∷ methods) = do
    register_method location method
    register_all methods

  -- What follows the worker's constructor, which made the registry and called `threadCreate`.
  abbrev pub run_worker :
      (thread_destroy : World lib → World lib)
      → List (Option SocketWork)
      → World lib × List Report
      → Result Exception (Unit {0}) × Registry lib
      → ThreadEnd × (World lib × List Report)
  run_worker thread_destroy dequeued state (err e, registry) = (terminated e, state)
  run_worker thread_destroy dequeued state (ok done, registry) =
      let (w, reports) = run (handle lib registry) dequeued state in
      (returned, (thread_destroy w, reports))

  -- `Handler_t::run`: the worker's constructor, its loop, and its destructor, which calls
  -- `threadDestroy` of the module. The registry is the thread's own, and is deleted with the worker.
  unfoldable pub run_thread :
      (thread_create : Exec (Registry lib) Exception (Unit {0}))
      → (thread_destroy : World lib → World lib) → List (Option SocketWork)
      → World lib × List Report
      → ThreadEnd × (World lib × List Report)
  run_thread thread_create thread_destroy dequeued state =
      run_worker thread_destroy dequeued state (thread_create [])
