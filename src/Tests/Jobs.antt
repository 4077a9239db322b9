-- ===== src/Tests/Jobs.antt =====
-- Examples of jobs.
use threadserver.Prelude.{◌≡◌, some, none, [], ◌∷◌, ok, arith}
use threadserver.Job.{Job, stop, start}
use threadserver.Job.Stopping.{stop-start}

-- A job that was started before, with two threads.
abbrev started : Job
started = record { threads = some 0 ∷ some 1 ∷ []; running = 0 ∷ 1 ∷ []; next = 2 }

stop-start_example :
    stop (start started)
    ≡ ok (record { threads = none ∷ none ∷ []; running = 0 ∷ 1 ∷ []; next = 4 })
stop-start_example = stop-start started (omega arith, (omega arith, tt))
