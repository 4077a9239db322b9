-- ===== src/Frpc/Thread/Registered.antt =====
-- A thread of the FRPC handler serves with the methods that its module registered in it.
use threadserver.Prelude.{
  Bool, ◌≡◌, refl, sym, ap, ◌∙◌, Option, none, some, List, [], ◌∷◌, ◌++◌, map, All, Bytes, codes,
  true, ok, err,
}
use mathlib.Core.List.{append_assoc, append-nil}
use threadserver.Prelude.Exec.{Exec, pure, ◌>>◌}
use threadserver.Errors.{c_str}
use threadserver.Listener.{SocketWork}
use threadserver.Http.Message.{Exception}
use threadserver.Http.Library.{Library}
use threadserver.Http.Worker.{error_text}
use threadserver.Modules.Settings.{FrpcSettings}
use threadserver.Workers.{Report}
use threadserver.Frpc.{Served, World, Entry, load_help, register_method}
use threadserver.Frpc.Thread.{
  config_of, Fault, thrown, ThreadEnd, terminated, Server, Locals, Action, register_local,
  create_worker, run_worker, run_thread,
}

abbrev pub missing_help : Bytes → Fault
missing_help filename = thrown (error_text (codes "Can't open help file " ++ c_str filename))

module _ {Method : Type 0} (object_first : Bool) (open_file : Bytes → Option Bytes)
    (settings : FrpcSettings) where
  -- A module's `threadCreate` that registers methods one after another.
  abbrev pub register_all : List (Entry Method) → Action Method
  register_all [] = pure tt
  register_all (e ∷ es) =
      register_local Method object_first open_file settings.help_directory e.method_name e.method
        e.signature
      >> register_all es

  -- The help of the entry is what `loadHelp` gives for its name.
  abbrev pub HasHelp : Entry Method → Type 0
  HasHelp e = load_help open_file settings.help_directory e.method_name ≡ ok e.help

  abbrev pub server_of : List (Entry Method) → Server Method
  server_of es = record { config = config_of settings; entries = es }

  abbrev locals_of : List (Entry Method) → Locals Method
  locals_of es = record {
    callbacks = true;
    frpc_config = some (config_of settings);
    frpc = some (server_of es);
  }

  register_local-ok :
      (e : Entry Method) (before : List (Entry Method))
      → HasHelp e
      → register_local Method object_first open_file settings.help_directory e.method_name e.method
          e.signature
          (locals_of before)
        ≡ (ok tt, locals_of (before ++ e ∷ []))
  unfolding register_local register_method
  register_local-ok e before p = rw (p, register_local) refl

  register_all-append :
      (es more before : List (Entry Method))
      → All HasHelp es
      → register_all (es ++ more) (locals_of before) ≡ register_all more (locals_of (before ++ es))
  register_all-append [] more before h =
      ap (λ all. register_all more (locals_of all)) (sym (append-nil before))
  register_all-append (e ∷ es) more before (p, h) = rw (register_local-ok e before p) (
      register_all-append es more (before ++ e ∷ []) h
      ∙ ap (λ all. register_all more (locals_of all)) (append_assoc before (e ∷ []) es))

  register_all-missing :
      (e : Entry Method) (more before : List (Entry Method)) (filename : Bytes)
      → load_help open_file settings.help_directory e.method_name ≡ err filename
      → register_all (e ∷ more) (locals_of before) ≡ (err (missing_help filename), locals_of before)
  unfolding register_local register_method
  register_all-missing e more before filename bad = rw (bad, register_local) refl

  module _ (lib : Library) (serve : Server Method → Exec (Served lib) Exception (Unit {0})) where
    abbrev pub run_with :
        List (Entry Method)
        → (Locals Method → Locals Method)
        → List SocketWork
        → List (Option SocketWork)
        → World lib × List Report
        → ThreadEnd × Locals Method × (World lib × List Report)
    run_with es thread_destroy sockets rest =
        run_thread Method lib serve settings (register_all es) thread_destroy
          (map some sockets ++ (none ∷ rest))

    -- If the module goes on to register a method whose help file cannot be opened, the thread serves no
    -- socket and the error ends the process.
    run_thread-missing_help :
        (es : List (Entry Method)) (e : Entry Method) (more : List (Entry Method))
        (filename : Bytes) (thread_destroy : Locals Method → Locals Method)
        (sockets : List SocketWork) (rest : List (Option SocketWork))
        (state : World lib × List Report)
        → All HasHelp es
        → load_help open_file settings.help_directory e.method_name ≡ err filename
        → run_with (es ++ (e ∷ more)) thread_destroy sockets rest state
          ≡ (terminated (missing_help filename), locals_of es, state)
    unfolding run_thread create_worker
    run_thread-missing_help es e more filename thread_destroy sockets rest state h bad =
        ap (run_worker Method lib serve thread_destroy (map some sockets ++ (none ∷ rest)) state)
          (register_all-append es (e ∷ more) [] h ∙ register_all-missing e more es filename bad)
