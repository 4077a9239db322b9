-- ===== src/Frpc/Thread.antt =====
-- src/threadserver/handler.cc and src/handlers/cppfrpchandler/cppfrpchandler.cc: a thread of the FRPC
-- handler, `Handler_t::run`, with the constructor and the destructor of its worker. The FRPC server is
-- a parameter: what it serves with are its configuration and the entries of its registry.
pub mod Registered
use threadserver.Prelude.{
  if◌then◌else◌, Bool, true, false, Option, none, some, List, [], ◌∷◌, ◌++◌, Bytes, codes, Result,
  ok, err,
}
use threadserver.Prelude.Int.{ℤ}
use threadserver.Prelude.Exec.{Exec, pure, modify, ◌>>=◌, ◌>>◌}
use threadserver.Errors.{c_str}
use threadserver.Listener.{SocketWork}
use threadserver.Http.Message.{Exception}
use threadserver.Http.Library.{Library}
use threadserver.Http.Worker.{error_text}
use threadserver.Modules.Settings.{FrpcSettings}
use threadserver.Workers.{Report, run}
use threadserver.Frpc.{Served, World, Entry, load_help, register_method, handle}

-- `FRPC::Server_t::Config_t`, as the worker makes it of the handler's settings
pub record Config : Type 0 where
  pub read_timeout : ℤ
  pub write_timeout : ℤ
  pub keep_alive : Bool
  pub max_keep_alive : ℤ
  pub introspection_enabled : Bool

unfoldable pub config_of : FrpcSettings → Config
config_of settings = record {
  read_timeout = settings.read_timeout;
  write_timeout = settings.write_timeout;
  keep_alive = settings.keep_alive;
  max_keep_alive = settings.max_keep_alive;
  introspection_enabled = settings.introspection_enabled;
}

-- A null pointer that is used, or what is thrown.
pub data Fault : Type 0 where
  null_pointer : Fault
  thrown : Exception → Fault

pub data ThreadEnd : Type 0 where
  returned : ThreadEnd
  terminated : Fault → ThreadEnd

module _ (Method : Type 0) where
  pub record Server : Type 0 where
    pub config : Config
    pub entries : List (Entry Method)

  -- The thread's `callbacks`, `frpcConfig` and `frpc`.
  pub record Locals : Type 0 where
    pub callbacks : Bool
    pub frpc_config : Option Config
    pub frpc : Option Server

  abbrev pub no_locals : Locals
  no_locals = record { callbacks = false; frpc_config = none; frpc = none }

  abbrev pub Action : Type 0
  Action = Exec Locals Fault (Unit {0})

  abbrev pub in_registry :
      Locals
      → Config
      → Result Bytes (Unit {0}) × List (Entry Method)
      → Result Fault (Unit {0}) × Locals
  in_registry locals config (ok done, entries) =
      (ok tt, record locals { frpc = some (record { config = config; entries = entries }) })
  in_registry locals config (err filename, entries) = (
    err (thrown (error_text (codes "Can't open help file " ++ c_str filename))),
    record locals { frpc = some (record { config = config; entries = entries }) },
  )

  abbrev pub without_server : Result Bytes Bytes → Locals → Result Fault (Unit {0}) × Locals
  without_server (ok help) locals = (err null_pointer, locals)
  without_server (err filename) locals =
      (err (thrown (error_text (codes "Can't open help file " ++ c_str filename))), locals)

  -- `registerMethod`, through the thread's `frpc`. C++ leaves open what is evaluated first, the
  -- registry of `frpc` or the argument `loadHelp(methodName)`; `object_first` is what the compiler
  -- chose.
  unfoldable pub register_local :
      (object_first : Bool)
      → (open_file : Bytes → Option Bytes) → (help_directory method_name : Bytes) → Method
      → (signature : Bytes) → Action
  register_local object_first open_file help_directory method_name method signature locals =
      elim locals.frpc [
        | none ↦
            if object_first
            then (err null_pointer, locals)
            else without_server (load_help open_file help_directory method_name) locals
        | some server ↦
            in_registry locals server.config
              (register_method open_file help_directory method_name method signature server.entries)
      ]

  -- The members that the constructor of the worker sets, and then `threadCreate` of the module.
  unfoldable pub create_worker : FrpcSettings → (thread_create : Action) → Action
  unfolding config_of
  create_worker settings thread_create = do
    modify (λ locals. record locals { callbacks = true })
    modify (λ locals. record locals { frpc_config = some (config_of settings) })
    modify (λ locals. record locals {
      frpc = some (record { config = config_of settings; entries = [] });
    })
    thread_create

  -- `threadDestroy` of the module, and then the members that the destructor of the worker deletes.
  unfoldable pub destroy_worker : (thread_destroy : Locals → Locals) → Locals → Locals
  destroy_worker thread_destroy locals = record (thread_destroy locals) {
    frpc = none;
    frpc_config = none;
    callbacks = false;
  }

  module _ (lib : Library) (serve : Server → Exec (Served lib) Exception (Unit {0})) where
    -- `frpc->serve(...)`; without a server the thread has no worker that would call it.
    abbrev pub serve_with : Option Server → Exec (Served lib) Exception (Unit {0})
    serve_with none = pure tt
    serve_with (some server) = serve server

    abbrev pub run_worker :
        (thread_destroy : Locals → Locals)
        → List (Option SocketWork)
        → World lib × List Report
        → Result Fault (Unit {0}) × Locals
        → ThreadEnd × Locals × (World lib × List Report)
    run_worker thread_destroy dequeued state (err e, locals) = (terminated e, locals, state)
    run_worker thread_destroy dequeued state (ok done, locals) = (
      returned,
      destroy_worker thread_destroy locals,
      run (handle lib (serve_with locals.frpc)) dequeued state,
    )

    -- `Handler_t::run`: the constructor, the loop and the destructor of the worker.
    unfoldable pub run_thread :
        FrpcSettings
        → (thread_create : Action) → (thread_destroy : Locals → Locals) → List (Option SocketWork)
        → World lib × List Report
        → ThreadEnd × Locals × (World lib × List Report)
    unfolding create_worker
    run_thread settings thread_create thread_destroy dequeued state =
        run_worker thread_destroy dequeued state (create_worker settings thread_create no_locals)
