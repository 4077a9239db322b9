-- ===== src/Job.antt =====
-- src/threadserver/job.cc and its header: `Job_t`, whose threads do their work over and over, with a
-- pause, until they are interrupted.
pub mod Stopping
use threadserver.Prelude.{
  ℕ, zero, suc, ◌+◌, Option, none, some, List, [], ◌∷◌, ◌++◌, Bytes, Result, ok, err, ◌==◌,
  if◌then◌else◌,
}

-- How a turn of `worker` ends: the pause and `work` return, or throw.
pub data Turn : Type 0 where
  returned interrupted unknown : Turn
  std_exception : Bytes → Turn

-- What a thread of the job does that can be seen: the lines that it logs about exceptions, and the
-- calls of its two hooks.
pub data Event : Type 0 where
  thread_create thread_destroy unknown_exception : Event
  exception : Bytes → Event

-- The loop of `worker`, given how its turns end. It gives none where it has not without.
unfoldable pub turns : List Turn → Option (List Event)
turns [] = none
turns (interrupted ∷ rest) = some []
turns (returned ∷ rest) = turns rest
turns (std_exception text ∷ rest) = elim (turns rest) [
  | none ↦ none
  | some events ↦ some (exception text ∷ events)
]
turns (unknown ∷ rest) = elim (turns rest) [
  | none ↦ none
  | some events ↦ some (unknown_exception ∷ events)
]

-- `worker`
unfoldable pub worker : List Turn → Option (List Event)
unfolding turns
worker rest = elim (turns rest) [
  | none ↦ none
  | some events ↦ some (thread_create ∷ (events ++ thread_destroy ∷ []))
]

-- The member `threads`, whose pointers are null or to a thread, by its number; the threads that run;
-- and the number of the next one.
pub record Job : Type 0 where
  pub threads : List (Option ℕ)
  pub running : List ℕ
  pub next : ℕ

abbrev pub null_threads : ℕ → List (Option ℕ)
null_threads zero = []
null_threads (suc n) = none ∷ null_threads n

-- `Job_t::Job_t`
unfoldable pub new_job : (workers : ℕ) → Job
new_job workers = record { threads = null_threads workers; running = []; next = 0 }

-- The loop of `start`. A thread that an entry pointed to is detached, and goes on.
unfoldable pub start_all : (next : ℕ) → List (Option ℕ) → List (Option ℕ) × List ℕ × ℕ
start_all next [] = ([], [], next)
start_all next (old ∷ threads) =
    let (started, ids, after) = start_all (next + 1) threads in
    (some next ∷ started, next ∷ ids, after)

-- `start`
unfoldable pub start : Job → Job
unfolding start_all
start job =
    let (threads, ids, next) = start_all job.next job.threads in
    record { threads = threads; running = job.running ++ ids; next = next }

pub data NullThread : Type 0 where
  null_thread : NullThread

unfoldable pub without : ℕ → List ℕ → List ℕ
without id [] = []
without id (k ∷ ks) = let rest = without id ks in if k == id then ks else k ∷ rest

-- The loop of `stop`: each thread is interrupted and joined, and its pointer reset.
unfoldable pub stop_all :
    List (Option ℕ) → (running : List ℕ) → Result NullThread (List (Option ℕ) × List ℕ)
unfolding without
stop_all [] running = ok ([], running)
stop_all (none ∷ threads) running = err null_thread
stop_all (some id ∷ threads) running = elim (stop_all threads (without id running)) [
  | err e ↦ err e
  | ok (stopped, left) ↦ ok (none ∷ stopped, left)
]

-- `stop`
unfoldable pub stop : Job → Result NullThread Job
unfolding stop_all
stop job = elim (stop_all job.threads job.running) [
  | err e ↦ err e
  | ok (threads, running) ↦ ok (record job { threads = threads; running = running })
]
