-- ===== src/Workers/Pool.antt =====
-- src/threadserver/handler.cc with its threads: `Handler_t`, whose queue is filled by the listeners,
-- emptied by the workers of its pool and finished by `destroyWorkers`, in any interleaving.
pub mod Conserved
pub mod Shutdown
use threadserver.Prelude.{
  ℕ, zero, suc, ◌+◌, ◌≡◌, ◌≢◌, Bool, true, false, Option, none, some, List, [], ◌∷◌, ◌++◌,
  get_elem?, length,
}
use threadserver.Listener.{SocketWork}

-- `threading::queue`, a library: `dequeue` waits (`none`), gives a socket, or gives none.
pub record Queue : Type 1 where
  pub Q : Type 0
  pub empty : Q
  pub enqueue : SocketWork → Q → Q
  pub finish : Q → Q
  pub dequeue : Q → Option (Option SocketWork × Q)
  -- what it holds, in order, and whether `finish` was called
  pub waiting : Q → List SocketWork
  pub is_finished : Q → Bool

module _ (queue : Queue) where
  open queue use {Q, empty, enqueue, finish, dequeue, waiting, is_finished}

  -- What the code relies on: first in, first out, and no call waits once the queue is finished.
  pub record IsQueue : Type 0 where
    pub waiting-empty : waiting empty ≡ []
    pub waiting-enqueue :
        (socket : SocketWork) (q : Q) → waiting (enqueue socket q) ≡ waiting q ++ socket ∷ []
    pub waiting-finish : (q : Q) → waiting (finish q) ≡ waiting q
    pub is_finished-empty : is_finished empty ≡ false
    pub is_finished-enqueue :
        (socket : SocketWork) (q : Q) → is_finished (enqueue socket q) ≡ is_finished q
    pub is_finished-finish : (q : Q) → is_finished (finish q) ≡ true
    pub dequeue-some :
        (socket : SocketWork) (q q' : Q)
        → dequeue q ≡ some (some socket, q')
        → (waiting q ≡ socket ∷ waiting q') × (is_finished q' ≡ is_finished q)
    pub dequeue-none :
        (q q' : Q)
        → dequeue q ≡ some (none, q')
        → (waiting q' ≡ waiting q) × (is_finished q' ≡ is_finished q)
    pub dequeue-ne-none : (q : Q) → is_finished q ≡ true → dequeue q ≢ none

-- A thread of the pool: in `dequeue`, in `handle`, or behind its loop.
pub data Worker : Type 0 where
  idle : Worker
  busy : SocketWork → Worker
  ended : Worker

abbrev pub put : List Worker → ℕ → Worker → List Worker
put [] i x = []
put (w ∷ ws) zero x = x ∷ ws
put (w ∷ ws) (suc i) x = w ∷ put ws i x

abbrev pub idle_workers : ℕ → List Worker
idle_workers zero = []
idle_workers (suc n) = idle ∷ idle_workers n

module _ (queue : Queue) where
  open queue use {Q, empty, enqueue, finish, dequeue, is_finished}

  -- `arrived`, `taken` and `served` record the sockets in the order in which they were enqueued,
  -- dequeued and handled. `joined` counts the threads that `destroyWorkers` has joined.
  pub record Handler : Type 0 where
    pub work_queue : Q
    pub worker_pool : List Worker
    pub joined : ℕ
    pub arrived : List SocketWork
    pub taken : List SocketWork
    pub served : List SocketWork

  -- The constructor, and `createWorkers`.
  abbrev pub create_workers : ℕ → Handler
  create_workers worker_count = record {
    work_queue = empty;
    worker_pool = idle_workers worker_count;
    joined = 0;
    arrived = [];
    taken = [];
    served = [];
  }

  -- A round of the loop of a worker: it dequeues a socket, returns from `handle` (whatever that
  -- throws is caught), or leaves the loop.
  pub data Round (h : Handler) : Handler → Type 0 where
    take :
        (i : ℕ) (socket : SocketWork) (q : Q)
        → get_elem? h.worker_pool i ≡ some idle
        → dequeue h.work_queue ≡ some (some socket, q)
        → Round h (record h {
          work_queue = q;
          worker_pool = put h.worker_pool i (busy socket);
          taken = h.taken ++ socket ∷ [];
        })
    return :
        (i : ℕ) (socket : SocketWork)
        → get_elem? h.worker_pool i ≡ some (busy socket)
        → Round h
            (record h { worker_pool = put h.worker_pool i idle; served = h.served ++ socket ∷ [] })
    leave :
        (i : ℕ) (q : Q)
        → get_elem? h.worker_pool i ≡ some idle
        → dequeue h.work_queue ≡ some (none, q)
        → Round h (record h { work_queue = q; worker_pool = put h.worker_pool i ended })

  -- The other threads: a listener enqueues at any time, also after `finish`, as the callback of an accept
  -- that is pending while `stop` runs may do; and `destroyWorkers` finishes the queue and joins the
  -- workers in their order.
  pub data Step (h : Handler) : Handler → Type 0 where
    round : {h' : Handler} → Round h h' → Step h h'
    arrive :
        (socket : SocketWork)
        → Step h (record h {
          work_queue = enqueue socket h.work_queue;
          arrived = h.arrived ++ socket ∷ [];
        })
    finish_queue : Step h (record h { work_queue = finish h.work_queue })
    join :
        is_finished h.work_queue ≡ true
        → get_elem? h.worker_pool h.joined ≡ some ended
        → Step h (record h { joined = h.joined + 1 })

  pub data Reach (worker_count : ℕ) : Handler → Type 0 where
    created : Reach worker_count (create_workers worker_count)
    later : {h h' : Handler} → Reach worker_count h → Step h h' → Reach worker_count h'
