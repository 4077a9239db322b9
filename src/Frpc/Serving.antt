-- ===== src/Frpc/Serving.antt =====
-- A worker of the FRPC handler.
use threadserver.Prelude.{
  ◌≡◌, sym, ap, ◌∙◌, false, Option, none, some, List, [], ◌∷◌, ◌++◌, map, All, arith,
}
use mathlib.Core.List.{append_assoc, append-nil}
use threadserver.Prelude.Exec.{Exec}
use threadserver.Listener.{SocketWork}
use threadserver.Http.Message.{Exception}
use threadserver.Http.Library.{Library}
use threadserver.Workers.{Report, reported, round, run}
use threadserver.Frpc.{Served, World, handle}

module _ (lib : Library) (serve : Exec (Served lib) Exception (Unit {0})) where
  open lib use {Header, Io, no_headers}

  -- What one call of `serve` does with a connection and fresh headers.
  abbrev pub serve_io : Exec Io Exception (Unit {0})
  serve_io io =
      let (r, after) =
        serve (record { io = io; headers_in = no_headers; headers_out = no_headers }) in
      (r, after.io)

  -- Calls of `serve`, one after another: the connection at the end, and the lines for what they throw.
  abbrev pub io_after : List SocketWork → Io → Io
  io_after [] io = io
  io_after (socket ∷ sockets) io = io_after sockets (serve_io io).1

  abbrev pub serve_reports : List SocketWork → Io → List Report
  serve_reports [] io = []
  serve_reports (socket ∷ sockets) io =
      reported (serve_io io).0 ++ serve_reports sockets (serve_io io).1

  -- A thread between two sockets.
  abbrev pub waiting : Io → World lib
  waiting io = record { io = io; headers_in = none; headers_out = none; work = none }

  round-serve :
      (socket : SocketWork) (w : World lib) (reports : List Report)
      → socket.forbidden ≡ false
      → round (handle lib serve) socket (w, reports)
        ≡ (waiting (serve_io w.io).1, reports ++ reported (serve_io w.io).0)
  unfolding round handle
  round-serve socket w reports h = rw (h, handle) (ground arith)

  -- A worker of the FRPC handler calls `serve` for the sockets from allowed addresses that it dequeues,
  -- one after another, each with two fresh headers; it logs what `serve` throws as it was thrown, so
  -- that a broken pipe is told apart; and behind each socket the thread's headers and its `work` are
  -- empty.
  pub run-serve :
      (socket : SocketWork) (sockets : List SocketWork) (rest : List (Option SocketWork))
      (w : World lib) (reports : List Report)
      → All (λ s. s.forbidden ≡ false) (socket ∷ sockets)
      → run (handle lib serve) (map some (socket ∷ sockets) ++ (none ∷ rest)) (w, reports) ≡ (
        waiting (io_after (socket ∷ sockets) w.io),
        reports ++ serve_reports (socket ∷ sockets) w.io,
      )
  unfolding run
  run-serve socket [] rest w reports (f, h) =
      round-serve socket w reports f
      ∙ ap (λ (r : List Report). (waiting (serve_io w.io).1, reports ++ r))
          (sym (append-nil (reported (serve_io w.io).0)))
  run-serve socket (next ∷ sockets) rest w reports (f, h) =
      ap (run (handle lib serve) (map some (next ∷ sockets) ++ (none ∷ rest)))
        (round-serve socket w reports f)
      ∙ run-serve next sockets rest (waiting (serve_io w.io).1)
          (reports ++ reported (serve_io w.io).0) h
      ∙ ap (λ (r : List Report). (waiting (io_after (next ∷ sockets) (serve_io w.io).1), r))
          (append_assoc reports (reported (serve_io w.io).0)
            (serve_reports (next ∷ sockets) (serve_io w.io).1))
