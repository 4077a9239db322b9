-- ===== src/Workers.antt =====
-- src/threadserver/handler.cc: the loop of a worker thread, `Handler_t::Worker_t::run`. The queue is a
-- parameter: the loop is given what its calls of `dequeue` return, one after another.
pub mod Rounds
pub mod Pool
pub mod Refused
use threadserver.Prelude.{Bytes, Option, none, some, List, [], ◌∷◌, ◌++◌, Result, ok, err}
use threadserver.Prelude.Exec.{Exec}
use threadserver.Listener.{SocketWork}
use threadserver.Http.Message.{Exception, http_error, broken_pipe, std_exception, unknown}

-- The lines that `run` logs.
pub data Report : Type 0 where
  closed_by_host unknown_exception : Report
  exception : Bytes → Report

-- The three `catch` clauses.
unfoldable pub report : Exception → Report
report (broken_pipe text) = closed_by_host
report (http_error code text) = exception text
report (std_exception text) = exception text
report unknown = unknown_exception

unfoldable pub reported : Result Exception (Unit {0}) → List Report
unfolding report
reported (ok done) = []
reported (err e) = report e ∷ []

module _ {S : Type 0} (handle : SocketWork → Exec S Exception (Unit {0})) where
  -- One round, with a socket; the state is that of the handler and the lines logged so far.
  unfoldable pub round : SocketWork → S × List Report → S × List Report
  unfolding reported
  round socket (s, reports) = let (result, s') = handle socket s in (s', reports ++ reported result)

  unfoldable pub run : List (Option SocketWork) → S × List Report → S × List Report
  unfolding round
  run [] state = state
  run (none ∷ dequeued) state = state
  run (some socket ∷ dequeued) state = run dequeued (round socket state)
