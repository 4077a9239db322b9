-- ===== src/Workers/Rounds.antt =====
-- What a worker thread does with the sockets of its queue.
use mathlib.Core.List.{append_assoc, append-nil}
use threadserver.Prelude.Int.{ℤ}
use threadserver.Prelude.{
  ◌↔◌, Bytes, ◌≡◌, ◌≢◌, refl, sym, ap, ◌∙◌, ◌⊎◌, inl, inr, false, Bool-cases, Option, none, some,
  List, [], ◌∷◌, ◌++◌, map, All, All-append, Result, ok, err,
}
use threadserver.Prelude.Exec.{Exec}
use threadserver.Listener.{SocketWork}
use threadserver.Http.Message.{Exception, http_error, broken_pipe, std_exception, unknown}
use threadserver.Http.Library.{Library}
use threadserver.Http.Worker.{World, Registry, sliced}
use threadserver.Http.Worker.Handle.{handle}
use threadserver.Http.Worker.Handle.Release.{work-handle, thrown-handle}
use threadserver.Workers.{
  Report, closed_by_host, exception, unknown_exception, report, reported, round, run,
}

module _ {S : Type 0} (handler : SocketWork → Exec S Exception (Unit {0})) where
  -- What handling the sockets in turn leaves of the state, and the lines of those that threw.
  abbrev pub state_after : List SocketWork → S → S
  state_after [] s = s
  state_after (socket ∷ sockets) s = state_after sockets (handler socket s).1

  abbrev pub reports_of : List SocketWork → S → List Report
  reports_of [] s = []
  reports_of (socket ∷ sockets) s =
      reported (handler socket s).0 ++ reports_of sockets (handler socket s).1

  run-sockets :
      (sockets : List SocketWork) (rest : List (Option SocketWork)) (s : S) (reports : List Report)
      → run handler (map some sockets ++ (none ∷ rest)) (s, reports)
        ≡ (state_after sockets s, reports ++ reports_of sockets s)
  unfolding run
  run-sockets [] rest s reports = ap (λ (r : List Report). (s, r)) (sym (append-nil reports))
  run-sockets (socket ∷ sockets) rest s reports =
      run-sockets sockets rest (handler socket s).1 (reports ++ reported (handler socket s).0)
      ∙ ap (λ (r : List Report). (state_after sockets (handler socket s).1, r))
          (append_assoc reports (reported (handler socket s).0)
            (reports_of sockets (handler socket s).1))

-- The lines that the end of a socket's handling calls for.
pub data Logged : Result Exception (Unit {0}) → List Report → Type 0 where
  nothing : Logged (ok tt) []
  broken : (text : Bytes) → Logged (err (broken_pipe text)) (closed_by_host ∷ [])
  http : (code : ℤ) (text : Bytes) → Logged (err (http_error code text)) (exception text ∷ [])
  standard : (text : Bytes) → Logged (err (std_exception text)) (exception text ∷ [])
  strange : Logged (err unknown) (unknown_exception ∷ [])

pub reported-Logged : (result : Result Exception (Unit {0})) → Logged result (reported result)
unfolding reported report
reported-Logged (ok tt) = nothing
reported-Logged (err (broken_pipe text)) = broken text
reported-Logged (err (http_error code text)) = http code text
reported-Logged (err (std_exception text)) = standard text
reported-Logged (err unknown) = strange

Logged-reported :
    {result : Result Exception (Unit {0})} {lines : List Report}
    → Logged result lines
    → lines ≡ reported result
unfolding reported report
Logged-reported nothing = refl
Logged-reported (broken text) = refl
Logged-reported (http code text) = refl
Logged-reported (standard text) = refl
Logged-reported strange = refl

module _ {S : Type 0} (handler : SocketWork → Exec S Exception (Unit {0})) where
  -- From a state and the lines logged, sockets are handled in turn.
  pub data Serves : List SocketWork → S × List Report → S × List Report → Type 0 where
    no_more : (state : S × List Report) → Serves [] state state
    handled :
        (socket : SocketWork) (sockets : List SocketWork) (s s' : S) (reports lines : List Report)
        (result : Result Exception (Unit {0})) (end : S × List Report)
        → handler socket s ≡ (result, s')
        → Logged result lines
        → Serves sockets (s', reports ++ lines) end
        → Serves (socket ∷ sockets) (s, reports) end

  Serves-run :
      {sockets : List SocketWork} {state end : S × List Report} (rest : List (Option SocketWork))
      → Serves sockets state end
      → run handler (map some sockets ++ (none ∷ rest)) state ≡ end
  unfolding run round
  Serves-run rest (no_more state) = refl
  Serves-run rest (handled socket sockets s s' reports lines result end h l more) =
      let next : round handler socket (s, reports) ≡ (s', reports ++ lines) =
        ap (λ (r : Result Exception (Unit {0}) × S). (r.1, reports ++ reported r.0)) h
        ∙ ap (λ (more : List Report). (s', reports ++ more)) (sym (Logged-reported l)) in
      ap (run handler (map some sockets ++ (none ∷ rest))) next ∙ Serves-run rest more

  Serves-next :
      (socket : SocketWork) (sockets : List SocketWork) (s : S) (reports : List Report)
      (end : S × List Report)
      → Serves sockets (round handler socket (s, reports)) end
      → Serves (socket ∷ sockets) (s, reports) end
  unfolding round
  Serves-next socket sockets s reports end more =
      handled socket sockets s (handler socket s).1 reports (reported (handler socket s).0)
        (handler socket s).0 end refl (reported-Logged (handler socket s).0) more

  run-Serves_own :
      (sockets : List SocketWork) (rest : List (Option SocketWork)) (state : S × List Report)
      → Serves sockets state (run handler (map some sockets ++ (none ∷ rest)) state)
  unfolding run
  run-Serves_own [] rest state = no_more state
  run-Serves_own (socket ∷ sockets) rest (s, reports) =
      Serves-next socket sockets s reports _
        (run-Serves_own sockets rest (round handler socket (s, reports)))

  -- A worker that dequeues sockets until the queue gives none ends in a state and with a log exactly if
  -- the handling of the sockets one after another, each in the state that the one before left, leads
  -- there. A socket whose handling returns adds no line to the log. One whose handling throws adds one
  -- line, and does not keep the next from being handled: the line says of a broken pipe that the
  -- connection was closed by the host, it has the text of any other exception with a text, and else
  -- it says that the exception is unknown.
  pub run-Serves :
      (sockets : List SocketWork) (rest : List (Option SocketWork)) (state end : S × List Report)
      → (run handler (map some sockets ++ (none ∷ rest)) state ≡ end) ↔ Serves sockets state end
  run-Serves sockets rest state end =
      (λ e. rw (sym e) (run-Serves_own sockets rest state), Serves-run rest)

module _ (lib : Library) (registry : Registry lib) where
  -- A worker of the HTTP handler has no `work` between two sockets.
  work-run :
      (dequeued : List (Option SocketWork)) (w : World lib) (reports : List Report)
      → w.work ≡ none
      → (run (handle lib registry) dequeued (w, reports)).0.work ≡ none
  unfolding run
  work-run [] w reports h = h
  work-run (none ∷ dequeued) w reports h = h
  work-run (some socket ∷ dequeued) w reports h =
      work-run dequeued (handle lib registry socket w).1
        (reports ++ reported (handle lib registry socket w).0)
        (work-handle lib registry socket w
          ∙ (elim (Bool-cases socket.forbidden) [ inl e ↦ rw e h | inr e ↦ rw e refl ]))

  Quiet : SocketWork → World lib → Type 0
  Quiet socket w = All (λ line. line ≢ closed_by_host) (reported (handle lib registry socket w).0)

  reported-Quiet :
      (result : Result Exception (Unit {0}))
      → ((e : Exception) → result ≡ err e → (e ≡ sliced) ⊎ (e ≡ unknown))
      → All (λ line. line ≢ closed_by_host) (reported result)
  unfolding reported report
  reported-Quiet (ok done) h = tt
  reported-Quiet (err e) h = elim (h e refl) [
    | inl same ↦ rw same ((λ p. cc), tt)
    | inr same ↦ rw same ((λ p. cc), tt)
  ]

  -- A worker of the HTTP handler that serves sockets from allowed addresses never logs that the
  -- connection was closed by the foreign host, however the connections end.
  pub reports-run :
      (sockets : List SocketWork) (rest : List (Option SocketWork)) (w : World lib)
      → All (λ socket. socket.forbidden ≡ false) sockets
      → All
          (λ line. line ≢ closed_by_host)
          (run (handle lib registry) (map some sockets ++ (none ∷ rest)) (w, [])).1
  reports-run sockets rest w h =
      rw (run-sockets (handle lib registry) sockets rest w []) (quiet sockets w h)
    where
      quiet :
          (sockets : List SocketWork) (w : World lib)
          → All (λ socket. socket.forbidden ≡ false) sockets
          → All (λ line. line ≢ closed_by_host) (reports_of (handle lib registry) sockets w)
      quiet [] w h = tt
      quiet (socket ∷ sockets) w (f, h) =
          All-append (λ line. line ≢ closed_by_host) (reported (handle lib registry socket w).0)
            (reports_of (handle lib registry) sockets (handle lib registry socket w).1)
            (reported-Quiet (handle lib registry socket w).0
              (λ e. thrown-handle lib registry socket w e f))
            (quiet sockets (handle lib registry socket w).1 h)
