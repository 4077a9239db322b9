-- ===== src/Main.antt =====
-- src/threadserver/main.cc: the signal handler, and how `main` ends.
pub mod Signals
use threadserver.Prelude.{
  ℕ, ◌+◌, Bool, true, false, ◌||◌, List, [], ◌∷◌, ◌++◌, Result, ok, err, ◌==◌, if◌then◌else◌,
}

-- `ThreadServer::childPid`, `run`, the calls of `kill` as pairs of a process and a signal, and how
-- often the log was opened again.
pub record Process : Type 0 where
  pub child_pid : ℕ
  pub is_running : Bool
  pub kills : List (ℕ × ℕ)
  pub reopened : ℕ

-- `SIGINT` or `SIGTERM`; `SIGHUP` or `SIGUSR1`
unfoldable pub is_ending : ℕ → Bool
is_ending signo = signo == 2 || signo == 15

unfoldable pub is_reopening : ℕ → Bool
is_reopening signo = signo == 1 || signo == 10

unfoldable pub forward : ℕ → Process → Process
forward signo p =
    if p.child_pid == 0 then p else record p { kills = p.kills ++ (p.child_pid, signo) ∷ [] }

unfoldable pub signal_handler : ℕ → Process → Process
unfolding forward is_ending is_reopening
signal_handler signo p =
    let q = forward signo p in
    if is_ending signo
    then record q { is_running = false }
    else if is_reopening signo
    then record q { reopened = q.reopened + 1 }
    else q

unfoldable pub deliver : List ℕ → Process → Process
unfolding signal_handler
deliver [] p = p
deliver (signo ∷ signals) p = deliver signals (signal_handler signo p)

pub data Ending : Type 0 where
  runs : Ending
  returns : ℕ → Ending

-- `main`, given how the constructor, `run` and `stop` of the server end, and the signals so far.
unfoldable pub main :
    {E : Type 0} (construct run stop : Result E (Unit {0})) → List ℕ → Process → Ending
unfolding deliver
main (err e) run stop signals p = returns 1
main (ok done) (err e) stop signals p = returns 1
main (ok done) (ok done') stop signals p =
    if (deliver signals p).is_running
    then runs
    else elim stop [ ok done ↦ returns 0 | err e ↦ returns 1 ]
