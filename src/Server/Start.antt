-- ===== src/Server/Start.antt =====
-- The constructor `ThreadServer_t::ThreadServer_t` of src/threadserver/threadserver.cc: registration,
-- the pid file, the way into the background, and then the guard's loop or the workers.
pub mod Started
use threadserver.Prelude.{
  ℕ, Bool, not, ◌&&◌, List, [], ◌∷◌, ◌++◌, Bytes, is_empty, Result, ok, err, if◌then◌else◌,
}
use threadserver.Prelude.Exec.{Exec, pure, throw, modify, ◌>>=◌, ◌>>◌}
use threadserver.Boost.{Boost}
use threadserver.Configuration.{Configuration}
use threadserver.Server.{Server, ServerError, Loader, register}
use threadserver.Server.Detach.{Process, Calls, detach}
use threadserver.Server.Guard.{Round, Guard, guard}
use threadserver.Server.Lifetime.{Call, create_workers}

-- A pid file that was written: the directory that its name is relative to, the name, and the pid.
pub record PidFile : Type 0 where
  pub directory : Bytes
  pub name : Bytes
  pub pid : ℕ

-- `appended` are the files that were opened for appending, by directory and name, which makes one
-- that is not there.
pub record Construction : Type 0 where
  pub server : Server
  pub process : Process
  pub appended : List (Bytes × Bytes)
  pub pid_files : List PidFile
  pub performed : List Call

-- Why the constructor does not return: it throws, the process exits, or it is the guard, whose loop
-- does not end by `break`.
pub data Stop : Type 0 where
  not_registered : ServerError → Stop
  cannot_open_pid_file : Bytes → Stop
  exits : ℕ → Stop
  guards : Guard → Stop

-- The system: can a file be opened for appending, and for writing, by its name in a directory; the
-- calls of `detach`; the pid of the process behind them; and what the forks of the guard come to.
pub record System : Type 0 where
  pub can_append : (directory name : Bytes) → Bool
  pub can_write : (directory name : Bytes) → Bool
  pub calls : Calls
  pub pid : ℕ
  pub rounds : List Round

abbrev pub Action : Type 0
Action = Exec Construction Stop (Unit {0})

abbrev pub registered : Result ServerError (Unit {0}) × Server → Action
registered (ok done, server) s = (ok tt, record s { server = server })
registered (err e, server) s = (err (not_registered e), record s { server = server })

abbrev pub detached : Result ℕ (Unit {0}) × Process → Action
detached (ok done, process) s = (ok tt, record s { process = process })
detached (err code, process) s = (err (exits code), record s { process = process })

module _ (b : Boost) (loader : Loader) (can_bind : Bytes → ℕ → Bool) (c : Configuration)
    (sys : System) where
  open sys use {can_append, can_write, calls, pid, rounds}

  -- The first look at the pid file, before the process detaches.
  unfoldable pub check_pid_file : Action
  check_pid_file s =
      if not (is_empty c.pid_file) && not c.nodetach
      then (if can_append s.process.directory c.pid_file
          then (ok tt, record s { appended = s.appended ++ (s.process.directory, c.pid_file) ∷ [] })
          else (err (cannot_open_pid_file c.pid_file), s))
      else (ok tt, s)

  unfoldable pub write_pid_file : Action
  write_pid_file s =
      if is_empty c.pid_file
      then (ok tt, s)
      else if can_write s.process.directory c.pid_file
      then (
        ok tt,
        record s {
          pid_files =
              s.pid_files
              ++ record { directory = s.process.directory; name = c.pid_file; pid = pid } ∷ [];
        },
      )
      else (err (cannot_open_pid_file c.pid_file), s)

  -- The branch of a process that goes into the background.
  unfoldable pub go_background : Action
  unfolding write_pid_file
  go_background = do
    (λ s. detached (detach calls s.process) s)
    write_pid_file
    throw (guards (guard 0 rounds))

  unfoldable pub construct : Action
  unfolding check_pid_file go_background
  construct = do
    (λ s. registered (register b loader can_bind c s.server) s)
    check_pid_file
    if c.nodetach
        then modify (λ s. record s { performed = s.performed ++ create_workers s.server.handlers })
        else go_background
