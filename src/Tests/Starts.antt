-- ===== src/Tests/Starts.antt =====
-- Examples of the way into the background, and of the start of a server.
use threadserver.Prelude.{ℕ, ◌≡◌, true, false, some, [], ◌∷◌, codes, ok}
use threadserver.Configuration.{Configuration}
use threadserver.Server.Detach.{other_file, Process, child, Calls, detach}
use threadserver.Server.Detach.Daemon.{Works, Ended, detach-Ended}
use threadserver.Server.Guard.{child_ends}
use threadserver.Server.Start.{System}
use threadserver.Server.Start.Started.{Started}
use threadserver.Tests.Lifetimes.{configuration}

abbrev calls : Calls
calls = record {
  first_fork = child;
  setsid_works = true;
  second_fork = child;
  chdir_works = true;
  open_null = some 3;
  dup2_works = λ n. true;
  close_works = true;
}

abbrev process : Process
process = record {
  directory = codes "/srv";
  mask = 18;
  files = λ n. some (other_file (codes "tty"));
  leads_session = true;
  own_session = false;
}

detach-Ended_example :
    Ended calls process (detach calls process)
    × ((null : ℕ) → Works calls null → (detach calls process).0 ≡ ok tt)
detach-Ended_example = detach-Ended calls process

abbrev system : System
system = record {
  can_append = λ directory name. true;
  can_write = λ directory name. true;
  calls = calls;
  pid = 42;
  rounds = child_ends 0 ∷ [];
}

abbrev background : Configuration
background = record configuration { nodetach = false; pid_file = codes "server.pid" }
