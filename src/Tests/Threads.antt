-- ===== src/Tests/Threads.antt =====
-- Examples of threads of the HTTP handler.
use threadserver.Prelude.{
  ◌≡◌, refl, some, none, List, [], ◌∷◌, ◌++◌, Bytes, codes, is_empty, Result, ok, err,
  if◌then◌else◌,
}
use threadserver.Http.Message.{Exception, std_exception}
use threadserver.Http.Worker.Handle.{handle}
use threadserver.Workers.{Report, run}
use threadserver.Http.Worker.{World}
use threadserver.Http.Thread.{returned, terminated, register_all, run_thread}
use threadserver.Http.Thread.Registered.{Location, calls, entries, run_thread-register_all}
use threadserver.Tests.Requests.{wire, socket, hello, world, line_of_hello}

-- Every text but the empty one is an expression.
abbrev regex_of : Bytes → Result Exception Bytes
regex_of s = if is_empty s then err (std_exception (codes "empty")) else ok s

abbrev locations : List (Location wire regex_of)
locations = (codes "/", codes "/", hello) ∷ (codes "/b", codes "/b", hello) ∷ []

abbrev forget_work : World wire → World wire
forget_work w = record w { work = none }

abbrev served : World wire × List Report
served =
    run (handle wire (entries wire regex_of locations)) (some socket ∷ none ∷ [])
      (world line_of_hello, [])

run_thread-register_all_example :
    (run_thread wire regex_of
        (register_all wire regex_of (calls wire regex_of locations))
        forget_work
        (some socket ∷ none ∷ [])
        (world line_of_hello, [])
      ≡ (returned, (forget_work (served.0), served.1)))
    × (run_thread wire regex_of
          (register_all wire regex_of (calls wire regex_of locations ++ ([], hello) ∷ []))
          forget_work
          (some socket ∷ none ∷ [])
          (world line_of_hello, [])
        ≡ (terminated (std_exception (codes "empty")), (world line_of_hello, [])))
run_thread-register_all_example =
    run_thread-register_all wire regex_of locations [] hello [] (std_exception (codes "empty"))
      forget_work (some socket ∷ none ∷ []) (world line_of_hello, []) (refl, (refl, tt)) refl
