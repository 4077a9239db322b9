-- ===== src/Listener/Accepting.antt =====
-- The accept loop: `Listener_t::asyncAccept` and `Listener_t::accept`.
use threadserver.Prelude.{ℕ, ◌≡◌, refl, ap, ◌∙◌, true, false, List, [], ◌∷◌, ◌++◌, map, ◌+◌}
use mathlib.Core.List.{append_assoc, append-nil}
use threadserver.Listener.{
  Listener, Remote, SocketWork, AcceptEvent, accepted, lost, canceled, failed, Acceptor,
  is_forbidden, listen,
}

-- The work that a connection becomes.
abbrev pub screened : Listener → Remote → SocketWork
screened l socket = record {
  listener = l.address;
  socket = socket;
  forbidden = is_forbidden l socket;
}

-- A loop with no outstanding accept ignores whatever comes.
listen_idle :
    (l : Listener) (events : List AcceptEvent) (s : Acceptor)
    → s.pending ≡ false
    → listen l events s ≡ s
unfolding listen
listen_idle l [] s h = refl
listen_idle l (e ∷ events) s h = simp h (listen_idle l events s h)

abbrev pub waiting : List SocketWork → ℕ → Acceptor
waiting enqueued errors = record {
  pending = true;
  enqueued = enqueued;
  errors = errors;
  terminated = false;
}

listen_connections :
    (l : Listener) (sockets : List Remote) (rest : List AcceptEvent) (work : List SocketWork)
    (errors : ℕ)
    → listen l (map accepted sockets ++ rest) (waiting work errors)
      ≡ listen l rest (waiting (work ++ map (screened l) sockets) errors)
unfolding listen
listen_connections l [] rest work errors = rw append-nil
listen_connections l (x ∷ sockets) rest work errors =
    listen_connections l sockets rest (work ++ screened l x ∷ []) errors
    ∙ ap (λ (w : List SocketWork). listen l rest (waiting w errors))
        (append_assoc work (screened l x ∷ []) (map (screened l) sockets))

-- The ways in which an accept can end without a connection that is handed on.
pub data AcceptEnd : Type 0 where
  by_cancel by_failure by_loss : AcceptEnd

abbrev pub ending : AcceptEnd → AcceptEvent
ending by_cancel = canceled
ending by_failure = failed
ending by_loss = lost

-- What is left behind such an end.
abbrev pub idle_after : AcceptEnd → List SocketWork → ℕ → Acceptor
idle_after by_cancel work errors = record {
  pending = false;
  enqueued = work;
  errors = errors;
  terminated = false;
}
idle_after by_failure work errors = record {
  pending = false;
  enqueued = work;
  errors = errors + 1;
  terminated = false;
}
idle_after by_loss work errors = record {
  pending = false;
  enqueued = work;
  errors = errors;
  terminated = true;
}

pub enqueued-idle_after :
    (end : AcceptEnd) (work : List SocketWork) (errors : ℕ)
    → (idle_after end work errors).enqueued ≡ work
enqueued-idle_after by_cancel work errors = refl
enqueued-idle_after by_failure work errors = refl
enqueued-idle_after by_loss work errors = refl

-- Connections are handed to the handler in the order in which they were accepted, each with the
-- flag of its own remote end, up to the first accept that fails or is canceled, or whose peer is gone
-- when its address is asked for. After that one no connection is handed on, whatever follows; a failure
-- is logged, a cancellation is not, and a peer that is gone ends the process.
pub listen_lem :
    (l : Listener) (sockets : List Remote) (end : AcceptEnd) (rest : List AcceptEvent)
    (work : List SocketWork) (errors : ℕ)
    → listen l (map accepted sockets ++ (ending end ∷ rest)) (waiting work errors)
      ≡ idle_after end (work ++ map (screened l) sockets) errors
unfolding listen
listen_lem l sockets by_cancel rest work errors =
    listen_connections l sockets (canceled ∷ rest) work errors ∙ listen_idle l rest _ refl
listen_lem l sockets by_failure rest work errors =
    listen_connections l sockets (failed ∷ rest) work errors ∙ listen_idle l rest _ refl
listen_lem l sockets by_loss rest work errors =
    listen_connections l sockets (lost ∷ rest) work errors ∙ listen_idle l rest _ refl
