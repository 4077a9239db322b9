-- ===== src/Server/Unloading.antt =====
-- The end of a server process: src/threadserver/main.cc from the constructor on, and the destructor of
-- src/threadserver/threadserver.cc, which unloads the shared objects of the handlers.
mod Calls
pub mod Working
use threadserver.Prelude.{
  ℕ, Bool, List, [], ◌∷◌, ◌++◌, Bytes, any, Result, ok, err, ◌>>=◌, ◌==◌, if◌then◌else◌, true,
  false,
}
use threadserver.Listener.{Listener}
use threadserver.Http.Message.{Exception}
use threadserver.Server.{Server, close}
use threadserver.Server.Lifetime.{Call, Running, Undefined, perform, run, stop, create_workers}

-- Calls, one after another.
unfoldable pub performed : List Call → Running → Result Undefined Running
performed [] s = ok s
performed (call ∷ calls) s = perform call s >>= performed calls

abbrev pub and_stop : Server → List Call × Result Exception (Unit {0}) → List Call
and_stop server (calls, ok done) = calls ++ stop server.handlers server.listeners
and_stop server (calls, err e) = calls

-- `createWorkers` of the constructor, then `run` and, where that returns, `stop` when the process is to
-- end. Where `run` throws, `main` goes on behind the `try`, and the server is destroyed.
unfoldable pub process_calls : Server → (Listener → Result Exception (Unit {0})) → List Call
process_calls server opens =
    create_workers server.handlers ++ and_stop server (run server.listeners opens)

-- The code of a shared object is gone while threads run it.
pub data Unloaded : Type 0 where
  code_in_use : ℕ → Unloaded

unfoldable pub still_open : ℕ → List ℕ → Bool
still_open handle opened = any (λ h. h == handle) opened

-- `dlclose`: the object is unloaded with its last reference. `code` is the object of a handler, by its
-- name, and `working` are the handlers whose workers run.
unfoldable pub unload :
    (code : Bytes → ℕ) → (working : List Bytes) → ℕ → List ℕ → Result Unloaded (List ℕ)
unfolding still_open
unload code working handle opened =
    let rest = close handle opened in
    if still_open handle rest
    then ok rest
    else if any (λ name. code name == handle) working
    then err (code_in_use handle)
    else ok rest

-- The loop of the destructor over the handles.
unfoldable pub destroy :
    (code : Bytes → ℕ) → (working : List Bytes) → List ℕ → List ℕ → Result Unloaded (List ℕ)
unfolding unload
destroy code working [] opened = ok opened
destroy code working (handle ∷ handles) opened =
    unload code working handle opened >>= destroy code working handles
