-- ===== src/Dummy/Answers.antt =====
-- What the workers of the dummy handler send.
use threadserver.Prelude.{
  All, Bool, ℕ, suc, ◌+◌, ◌≡◌, ◌⊎◌, inl, inr, refl, sym, ap, ◌∙◌, Bytes, codes, Option, none, some,
  List, [], ◌∷◌, ◌++◌, map, length, Result, ok, err, arith, replicate,
}
use mathlib.Core.List.{append_assoc, append-nil}
use threadserver.Prelude.Exec.{Exec, continued}
use threadserver.Listener.{SocketWork}
use threadserver.Http.Message.{Exception}
use threadserver.Workers.Rounds.{Logged, reported-Logged}
use threadserver.Workers.{Report, report, reported, round, run}
use threadserver.Dummy.{Connection, hello_text, handle}

-- `sent` are the texts that were written in full.
pub record IsConnection (c : Connection) (sent : c.Io → List Bytes) : Type 0 where
  pub read_keeps : (d : Bytes) (io : c.Io) → sent (c.read_until d io).1 ≡ sent io
  pub sleep_keeps : (n : ℕ) (io : c.Io) → sent (c.sleep n io) ≡ sent io
  pub write_ok :
      (t : Bytes) (io : c.Io) → (c.write t io).0 ≡ ok tt → sent (c.write t io).1 ≡ sent io ++ t ∷ []
  pub write_err :
      (t : Bytes) (io : c.Io) (e : Exception)
      → (c.write t io).0 ≡ err e
      → sent (c.write t io).1 ≡ sent io

module _ (c : Connection) (sent : c.Io → List Bytes) (is : IsConnection c sent) where
  open c use {Io, read_until, sleep, write}

  -- The line tells of an exception that the reading of a request or the writing of the text throws.
  abbrev pub Cause : Report → Type 0
  Cause line =
      (io : Io) × (e : Exception) × (((read_until (codes "\r\n\r\n") io).0 ≡ err e)
        ⊎ ((write hello_text io).0 ≡ err e))
      × Logged (err e) (line ∷ [])

  -- One round answers, or logs a line.
  abbrev Answered : Io × List Report → Io × List Report → Type 0
  Answered (io, reports) (io', reports') =
      ((sent io' ≡ sent io ++ hello_text ∷ []) × (reports' ≡ reports))
      ⊎ ((line : Report) × (sent io' ≡ sent io) × (reports' ≡ reports ++ line ∷ []) × Cause line)

  settled :
      (io io' : Io) (reports : List Report) (r : Result Exception (Unit {0}))
      → (r ≡ ok tt → sent io' ≡ sent io ++ hello_text ∷ [])
      → ((e : Exception)
          → r ≡ err e
          → (sent io' ≡ sent io)
            × ((io : Io) × (((read_until (codes "\r\n\r\n") io).0 ≡ err e)
                  ⊎ ((write hello_text io).0 ≡ err e))))
      → Answered (io, reports) (io', reports ++ reported r)
  unfolding reported
  settled io io' reports (ok done) good bad = inl (good refl, append-nil reports)
  settled io io' reports (err e) good bad =
      let (same, why) = bad e refl in
      inr (report e, same, refl, (why.0, e, why.1, reported-Logged (err e)))

  abbrev rest_of_handle : Bytes → Exec Io Exception (Unit {0})
  rest_of_handle request io = write hello_text (sleep 10000000 io)

  after_read :
      (io io1 : Io) (reports : List Report) (r : Result Exception Bytes)
      → (read_until (codes "\r\n\r\n") io).0 ≡ r
      → sent io1 ≡ sent io
      → let (r', io') = continued rest_of_handle r io1 in
        Answered (io, reports) (io', reports ++ reported r')
  after_read io io1 reports (ok request) reads e =
      let slept = sleep 10000000 io1 in
      let same : sent slept ≡ sent io = is.sleep_keeps 10000000 io1 ∙ e in
      settled io (write hello_text slept).1 reports (write hello_text slept).0
        (λ h. is.write_ok hello_text slept h ∙ ap (λ l. l ++ hello_text ∷ []) same)
        (λ x h. (is.write_err hello_text slept x h ∙ same, (slept, inr h)))
  after_read io io1 reports (err x) reads e =
      settled io io1 reports (err x) (λ h. cc)
        (λ y h. let same : x ≡ y = cc in (e, (io, inl (reads ∙ ap err same))))

  round-Answered :
      (socket : SocketWork) (io : Io) (reports : List Report)
      → Answered (io, reports) (round (handle c) socket (io, reports))
  unfolding round handle
  round-Answered socket io reports =
      after_read io (read_until (codes "\r\n\r\n") io).1 reports
        (read_until (codes "\r\n\r\n") io).0 refl (is.read_keeps (codes "\r\n\r\n") io)

  -- So many texts of the one kind were sent in full, and these lines were logged.
  pub record Outcome (sockets : ℕ) (before after : Io × List Report) : Type 0 where
    pub answers : ℕ
    pub lines : List Report
    pub texts : sent after.0 ≡ sent before.0 ++ replicate answers hello_text
    pub logged : after.1 ≡ before.1 ++ lines
    pub counted : answers + length lines ≡ sockets
    pub caused : All Cause lines

  Outcome-step :
      (n : ℕ) (s s' s'' : Io × List Report)
      → Answered s s'
      → Outcome n s' s''
      → Outcome (suc n) s s''
  Outcome-step n s s' s'' (inl (t, r)) o = record {
    answers = suc o.answers;
    lines = o.lines;
    texts =
        o.texts
        ∙ ap (λ l. l ++ replicate o.answers hello_text) t
        ∙ append_assoc (sent s.0) (hello_text ∷ []) (replicate o.answers hello_text);
    logged = o.logged ∙ ap (λ l. l ++ o.lines) r;
    counted = omega (arith, o.counted);
    caused = o.caused;
  }
  Outcome-step n s s' s'' (inr (line, t, r, cause)) o = record {
    answers = o.answers;
    lines = line ∷ o.lines;
    texts = o.texts ∙ ap (λ l. l ++ replicate o.answers hello_text) t;
    logged = o.logged ∙ ap (λ l. l ++ o.lines) r ∙ append_assoc s.1 (line ∷ []) o.lines;
    counted = omega (arith, o.counted);
    caused = (cause, o.caused);
  }

  run-counts :
      (sockets : List SocketWork) (rest : List (Option SocketWork)) (s : Io × List Report)
      → Outcome (length sockets) s (run (handle c) (map some sockets ++ (none ∷ rest)) s)
  unfolding run
  run-counts [] rest (io, reports) = record {
    answers = 0;
    lines = [];
    texts = sym (append-nil (sent io));
    logged = sym (append-nil reports);
    counted = refl;
    caused = tt;
  }
  run-counts (socket ∷ sockets) rest (io, reports) =
      Outcome-step (length sockets) (io, reports) (round (handle c) socket (io, reports)) _
        (round-Answered socket io reports)
        (run-counts sockets rest (round (handle c) socket (io, reports)))

  -- The sockets with other flags.
  abbrev pub flagged : (SocketWork → Bool) → List SocketWork → List SocketWork
  flagged flag [] = []
  flagged flag (socket ∷ sockets) = record socket { forbidden = flag socket } ∷ flagged flag sockets

  run-flagged :
      (flag : SocketWork → Bool) (sockets : List SocketWork) (rest : List (Option SocketWork))
      (s : Io × List Report)
      → run (handle c) (map some (flagged flag sockets) ++ (none ∷ rest)) s
        ≡ run (handle c) (map some sockets ++ (none ∷ rest)) s
  unfolding run round handle
  run-flagged flag [] rest s = refl
  run-flagged flag (socket ∷ sockets) rest s =
      run-flagged flag sockets rest (round (handle c) socket s)

  -- If reading and waiting send nothing, and a write sends its text in full when it returns and not when
  -- it throws: a worker of the dummy handler sends, for the sockets that it dequeues up to the end, the
  -- one text of status 200 and nothing else in full, and for each of them either that text or one line
  -- in the log; and a line is logged only for an exception that reading a request or writing the text
  -- throws. With any other flags of the sockets, whether they are forbidden, the run is the same.
  pub run-Outcome :
      (sockets : List SocketWork) (rest : List (Option SocketWork)) (s : Io × List Report)
      (flag : SocketWork → Bool)
      → Outcome (length sockets) s (run (handle c) (map some sockets ++ (none ∷ rest)) s)
        × (run (handle c) (map some (flagged flag sockets) ++ (none ∷ rest)) s
            ≡ run (handle c) (map some sockets ++ (none ∷ rest)) s)
  run-Outcome sockets rest s flag = (run-counts sockets rest s, run-flagged flag sockets rest s)
