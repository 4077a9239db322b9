-- ===== src/Tests/Dummies.antt =====
-- An example of the dummy handler: a connection that says which requests can be read.
use threadserver.Prelude.{
  ◌≡◌, refl, Bool, true, false, Bytes, List, [], ◌∷◌, ◌++◌, codes, none, ok, err, some,
}
use threadserver.Prelude.Exec.{Exec}
use threadserver.Listener.{SocketWork, v4}
use threadserver.Http.Message.{Exception, broken_pipe}
use threadserver.Workers.{Report, run}
use threadserver.Dummy.{Connection, handle}
use threadserver.Dummy.Answers.{IsConnection, Outcome, run-Outcome}

abbrev Requests : Type 0
Requests = List Bool × List Bytes

read_next : Exec Requests Exception Bytes
read_next ([], texts) = (err (broken_pipe (codes "end")), ([], texts))
read_next (true ∷ more, texts) = (ok (codes "GET / HTTP/1.0\r\n\r\n"), (more, texts))
read_next (false ∷ more, texts) = (err (broken_pipe (codes "reset")), (more, texts))

abbrev connection : Connection
connection = record {
  Io = Requests;
  read_until = λ delimiter. read_next;
  sleep = λ nanoseconds io. io;
  write = λ text io. (ok tt, (io.0, io.1 ++ text ∷ []));
}

read_next-keeps : (io : Requests) → (read_next io).1.1 ≡ io.1
unfolding read_next
read_next-keeps ([], texts) = refl
read_next-keeps (true ∷ more, texts) = refl
read_next-keeps (false ∷ more, texts) = refl

connection-IsConnection : IsConnection connection (λ io. io.1)
connection-IsConnection = record {
  read_keeps = λ delimiter io. read_next-keeps io;
  sleep_keeps = λ nanoseconds io. refl;
  write_ok = λ text io h. refl;
  write_err = λ text io e h. cc;
}

abbrev refused : SocketWork
refused = record { socket = v4 7; forbidden = true; listener = codes "a" }

abbrev allowed : SocketWork
allowed = record { socket = v4 8; forbidden = false; listener = codes "a" }

abbrev start : (List Bool × List Bytes) × List Report
start = ((true ∷ false ∷ [], []), [])

run-Outcome_example :
    let served = run (handle connection) (some refused ∷ some allowed ∷ none ∷ []) start in
    Outcome connection (λ io. io.1) connection-IsConnection 2 start served
    × (run
          (handle connection)
          (some (record refused { forbidden = false }) ∷ some allowed ∷ none ∷ [])
          start
        ≡ served)
run-Outcome_example =
    run-Outcome connection (λ io. io.1) connection-IsConnection (refused ∷ allowed ∷ []) [] start
      (λ socket. false)
