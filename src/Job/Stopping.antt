-- ===== src/Job/Stopping.antt =====
-- Starting and stopping of jobs.
use mathlib.Core.List.{append-nil}
use threadserver.Prelude.{
  ℕ, zero, suc, ◌+◌, ◌*◌, ◌<◌, ◌≡◌, ◌≢◌, refl, ap, ◌∙◌, Option, some, List, [], ◌∷◌, ◌++◌, length,
  All, Result, ok, err, arith,
}
use threadserver.Job.{
  Turn, returned, interrupted, unknown, std_exception, Event, thread_create, thread_destroy,
  unknown_exception, exception, turns, worker, Job, null_threads, new_job, start_all, start,
  NullThread, without, stop_all, stop,
}

-- The lines for the turns that throw.
abbrev pub lines : List Turn → List Event
lines [] = []
lines (std_exception text ∷ rest) = exception text ∷ lines rest
lines (unknown ∷ rest) = unknown_exception ∷ lines rest
lines (_ ∷ rest) = lines rest

turns-interrupted :
    (before after : List Turn)
    → All (λ turn. turn ≢ interrupted) before
    → turns (before ++ (interrupted ∷ after)) ≡ some (lines before)
unfolding turns
turns-interrupted [] after h = refl
turns-interrupted (returned ∷ before) after (p, h) = turns-interrupted before after h
turns-interrupted (interrupted ∷ before) after (p, h) = absurd (p refl)
turns-interrupted (unknown ∷ before) after (p, h) =
    rw (turns-interrupted before after h, turns) refl
turns-interrupted (std_exception text ∷ before) after (p, h) =
    rw (turns-interrupted before after h, turns) refl

-- A thread of a job ends at the first turn that is interrupted, and at no other: whatever the turns
-- before it throw is logged, in order, and does not end it. It calls its two hooks once, first and last.
pub worker-interrupted :
    (before after : List Turn)
    → All (λ turn. turn ≢ interrupted) before
    → worker (before ++ (interrupted ∷ after))
      ≡ some (thread_create ∷ (lines before ++ thread_destroy ∷ []))
unfolding worker
worker-interrupted before after h = rw (turns-interrupted before after h, worker) refl

without-append :
    (id : ℕ) (old ids : List ℕ)
    → All (λ k. k < id) old
    → without id (old ++ (id ∷ ids)) ≡ old ++ ids
unfolding without
without-append id [] ids h = ground arith
without-append id (k ∷ old) ids (p, h) = ground (arith, without-append id old ids h)

All-later : (id : ℕ) (old : List ℕ) → All (λ k. k < id) old → All (λ k. k < id + 1) old
All-later id [] h = tt
All-later id (k ∷ old) (p, h) = (omega arith, All-later id old h)

-- The entries that a loop of `start` makes are stopped by a loop of `stop`.
stop_all-start_all :
    (next : ℕ) (threads : List (Option ℕ)) (old : List ℕ)
    → All (λ k. k < next) old
    → stop_all (start_all next threads).0 (old ++ (start_all next threads).1)
      ≡ ok (null_threads (length threads), old)
unfolding stop_all start_all
stop_all-start_all next [] old h = rw (append-nil old) refl
stop_all-start_all next (pointer ∷ threads) old h =
    rw
      (
        without-append next old (start_all (next + 1) threads).1 h,
        stop_all,
        stop_all-start_all (next + 1) threads old (All-later next old h),
      )
      refl

next-start_all :
    (next : ℕ) (threads : List (Option ℕ)) → (start_all next threads).2 ≡ next + length threads
unfolding start_all
next-start_all next [] = omega arith
next-start_all next (pointer ∷ threads) = omega (arith, next-start_all (next + 1) threads)

-- A `start` and then a `stop` of a job meet no null pointer, and end exactly the threads that this
-- `start` made: none runs behind them if none ran before, and threads of a `start` before, which the
-- job no longer points to, run on.
pub stop-start :
    (job : Job)
    → All (λ id. id < job.next) job.running
    → stop (start job)
      ≡ ok (record {
        threads = null_threads (length job.threads);
        running = job.running;
        next = job.next + length job.threads;
      })
unfolding stop start
stop-start job h =
    rw
      (
        stop_all-start_all job.next job.threads job.running h,
        stop,
        next-start_all job.next job.threads,
      )
      refl

-- Any number of rounds of `start` and `stop`.
abbrev pub rounds : ℕ → Job → Result NullThread Job
rounds zero job = ok job
rounds (suc n) job = elim (stop (start job)) [ err e ↦ err e | ok stopped ↦ rounds n stopped ]

length-null_threads : (n : ℕ) → length (null_threads n) ≡ n
length-null_threads zero = refl
length-null_threads (suc n) = ap suc (length-null_threads n)

-- A job that does not run, whose next thread has this number.
abbrev pub idle_job : (workers next : ℕ) → Job
idle_job workers next = record { threads = null_threads workers; running = []; next = next }

stop-start_idle :
    (workers next : ℕ)
    → stop (start (idle_job workers next)) ≡ ok (idle_job workers (next + workers))
stop-start_idle workers next =
    stop-start (idle_job workers next) tt
    ∙ ap (λ w. ok (idle_job w (next + w))) (length-null_threads workers)

-- A job can be started and stopped any number of times in turn: no `stop` meets a null pointer, and
-- behind the last one no thread of the job runs, though each `start` made as many as the constructor
-- was asked for.
rounds-new_job : (n workers : ℕ) → rounds n (new_job workers) ≡ ok (idle_job workers (n * workers))
unfolding new_job
rounds-new_job n workers = from n 0 ∙ ap (λ k. ok (idle_job workers k)) (omega arith)
  where
    from :
        (n next : ℕ) → rounds n (idle_job workers next) ≡ ok (idle_job workers (next + n * workers))
    from zero next = ap (λ k. ok (idle_job workers k)) (omega arith)
    from (suc n) next =
        rw (stop-start_idle workers next, rounds)
          (from n (next + workers) ∙ ap (λ k. ok (idle_job workers k)) (omega arith))
