-- ===== src/Server/Unloading/Working.antt =====
-- Which handlers still work when the destructor of the server unloads their code.
use threadserver.Prelude.{ℕ, ◌≡◌, Bool, false, [], List, Bytes, Result, ok}
use threadserver.Boost.{Boost}
use threadserver.Configuration.{Configuration}
use threadserver.Listener.{Listener}
use threadserver.Http.Message.{Exception}
use threadserver.Server.{Server, Loader}
use threadserver.Server.Lifetime.{Call, Running, Undefined, run, stop}
use threadserver.Server.Lifetime.Through.{names, Through, state}
use threadserver.Server.Lifetime.Serving.{registered}
use threadserver.Server.Unloading.{performed, process_calls}

module _ (server : Server) where
  abbrev pub begun : Running
  begun = state server.listeners (names server.handlers) [] [] false

  -- The handlers and listeners when the destructor of the server begins.
  abbrev pub at_destructor :
      (opens : Listener → Result Exception (Unit {0})) → Result Undefined Running
  at_destructor opens = performed (process_calls server opens) begun

  module _ (opens : Listener → Result Exception (Unit {0})) where
    abbrev calls : List Call × Result Exception (Unit {0})
    calls = run server.listeners opens

    abbrev Stops : Running → Type 0
    Stops s =
        calls.1 ≡ ok tt
        → Through server.listeners (λ s'. s' ≡ state server.listeners [] [] [] false)
            (stop server.handlers server.listeners) s

module _ (b : Boost) (loader : Loader) (can_bind : Bytes → ℕ → Bool) (c : Configuration)
    (handles opened : List ℕ) where
  abbrev server_of : Server
  server_of = registered b loader can_bind c handles opened
