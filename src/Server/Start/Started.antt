-- ===== src/Server/Start/Started.antt =====
-- What the constructor of the server leaves behind, in the server process and in its guard.
use threadserver.Prelude.{
  ◌⊎◌, ℕ, Bool, true, false, ◌≡◌, List, [], ◌∷◌, ◌++◌, Bytes, is_empty, Result, ok, err,
  if◌then◌else◌, codes,
}
use threadserver.Prelude.Exec.{continued, modify}
use threadserver.Boost.{Boost}
use threadserver.Configuration.{Configuration}
use threadserver.Server.{Server, ServerError, Loader}
use threadserver.Server.Wiring.{IsWired}
use threadserver.Server.Detach.{Process, detach}
use threadserver.Server.Detach.Daemon.{IsDaemon}
use threadserver.Server.Guard.{guard}
use threadserver.Server.Lifetime.{create_workers}
use threadserver.Server.Start.{
  PidFile, Construction, Stop, not_registered, cannot_open_pid_file, exits, guards, System,
  check_pid_file, go_background,
}

-- Before the constructor: no handler and no listener.
abbrev pub fresh : (handles opened : List ℕ) → Process → Construction
fresh handles opened process = record {
  server = record { handlers = []; handler_handles = handles; opened = opened; listeners = [] };
  process = process;
  appended = [];
  pid_files = [];
  performed = [];
}

module _ (b : Boost) (loader : Loader) (can_bind : Bytes → ℕ → Bool) (c : Configuration)
    (sys : System) where
  open sys use {calls, pid, rounds}

  abbrev pid_files_of : Bytes → List PidFile
  pid_files_of directory =
      if is_empty c.pid_file
      then []
      else record { directory = directory; name = c.pid_file; pid = pid } ∷ []

  -- The pid file is not named, or can be opened by its name in the root directory.
  abbrev pub CanWrite : Type 0
  CanWrite = (is_empty c.pid_file ≡ true) ⊎ (sys.can_write (codes "/") c.pid_file ≡ true)

  -- How a process ends that goes into the background; `s` is as it was before it does so.
  abbrev pub Background : Construction → Result Stop (Unit {0}) × Construction → Type 0
  Background s (ok done, s') = ⊥
  Background s (err (not_registered e), s') = ⊥
  Background s (err (cannot_open_pid_file name), s') =
      (s'.performed ≡ s.performed)
      × (s'.pid_files ≡ s.pid_files)
      × (name ≡ c.pid_file)
      × (is_empty c.pid_file ≡ false)
      × ((detach calls s.process).0 ≡ ok tt)
      × (sys.can_write (codes "/") c.pid_file ≡ false)
  Background s (err (exits code), s') =
      (s'.performed ≡ s.performed)
      × (s'.pid_files ≡ s.pid_files)
      × ((detach calls s.process).0 ≡ err code)
  Background s (err (guards g), s') =
      (s'.performed ≡ s.performed)
      × (s'.pid_files ≡ s.pid_files ++ pid_files_of (codes "/"))
      × ((null : ℕ) × IsDaemon calls null s.process s'.process)
      × (g ≡ guard 0 rounds)
      × ((detach calls s.process).0 ≡ ok tt)
      × CanWrite

  -- `s` after the first look at a pid file that can be opened.
  abbrev pub looked : Construction → Construction
  looked s = record s {
    appended =
        if is_empty c.pid_file
        then s.appended
        else s.appended ++ (s.process.directory, c.pid_file) ∷ [];
  }

  -- A named pid file that cannot be opened where the process stands is thrown for; else the process
  -- goes into the background.
  abbrev pub Checked : Construction → Result Stop (Unit {0}) × Construction → Type 0
  Checked s r =
      ((is_empty c.pid_file ≡ false)
        × (sys.can_append s.process.directory c.pid_file ≡ false)
        × (r ≡ (err (cannot_open_pid_file c.pid_file), s)))
      ⊎ (((is_empty c.pid_file ≡ true) ⊎ (sys.can_append s.process.directory c.pid_file ≡ true))
          × Background (looked s) r)

  -- How the constructor ends, by what comes of the registration, and by whether the process stays in
  -- the foreground.
  abbrev pub Started :
      Bool
      → Result ServerError (Unit {0}) × Server
      → Construction
      → Result Stop (Unit {0}) × Construction
      → Type 0
  Started nodetach (err e, server) s r =
      (r ≡ (err (not_registered e), record s { server = server })) × IsWired server
  Started true (ok done, server) s r =
      (r ≡ (
        ok tt,
        record s { server = server; performed = s.performed ++ create_workers server.handlers },
      ))
      × IsWired server
  Started false (ok done, server) s r = Checked (record s { server = server }) r × IsWired server

  abbrev from_check : Construction → Result Stop (Unit {0}) × Construction
  from_check s =
      continued
        (λ done.
          if c.nodetach
          then modify
              (λ s. record s { performed = s.performed ++ create_workers s.server.handlers })
          else go_background b loader can_bind c sys)
        (check_pid_file b loader can_bind c sys s).0 (check_pid_file b loader can_bind c sys s).1
