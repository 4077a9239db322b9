-- ===== src/Tests/Pools.antt =====
-- Examples of worker pools, over a queue that is a list and a flag.
use threadserver.Prelude.{
  ℕ, ◌≤◌, ◌≡◌, ◌≢◌, refl, Bool, true, false, Option, none, some, List, [], ◌∷◌, ◌++◌, All, codes,
}
use threadserver.Listener.{SocketWork, v4}
use threadserver.Workers.Pool.{
  Queue, IsQueue, idle, busy, ended, Handler, Reach, take, return, round, arrive, finish_queue,
  created, later,
}
use threadserver.Workers.Pool.Conserved.{IsConserved, Reach-IsConserved}
use threadserver.Workers.Pool.Shutdown.{Rounds, none_yet, one_more, rounds_left, Rounds-end}

abbrev Waiting : Type 0
Waiting = List SocketWork × Bool

unfoldable next : Waiting → Option (Option SocketWork × Waiting)
next (socket ∷ sockets, finished) = some (some socket, (sockets, finished))
next ([], true) = some (none, ([], true))
next ([], false) = none

abbrev sockets_queue : Queue
sockets_queue = record {
  Q = Waiting;
  empty = ([], false);
  enqueue = λ socket q. (q.0 ++ socket ∷ [], q.1);
  finish = λ q. (q.0, true);
  dequeue = next;
  waiting = λ q. q.0;
  is_finished = λ q. q.1;
}

next-some :
    (socket : SocketWork) (q q' : Waiting)
    → next q ≡ some (some socket, q')
    → (q.0 ≡ socket ∷ q'.0) × (q'.1 ≡ q.1)
unfolding next
next-some socket (s ∷ ss, f) q' e = (cc, cc)
next-some socket ([], true) q' e = cc
next-some socket ([], false) q' e = cc

next-none : (q q' : Waiting) → next q ≡ some (none, q') → (q'.0 ≡ q.0) × (q'.1 ≡ q.1)
unfolding next
next-none (s ∷ ss, f) q' e = cc
next-none ([], true) q' e = (cc, cc)
next-none ([], false) q' e = cc

next-ne-none : (q : Waiting) → q.1 ≡ true → next q ≢ none
unfolding next
next-ne-none (s ∷ ss, f) h e = cc
next-ne-none ([], true) h e = cc
next-ne-none ([], false) h e = cc

sockets_queue-IsQueue : IsQueue sockets_queue
sockets_queue-IsQueue = record {
  waiting-empty = refl;
  waiting-enqueue = λ socket q. refl;
  waiting-finish = λ q. refl;
  is_finished-empty = refl;
  is_finished-enqueue = λ socket q. refl;
  is_finished-finish = λ q. refl;
  dequeue-some = next-some;
  dequeue-none = next-none;
  dequeue-ne-none = next-ne-none;
}

abbrev first : SocketWork
first = record { listener = codes "*:80"; socket = v4 1; forbidden = false }

abbrev second : SocketWork
second = record { listener = codes "*:80"; socket = v4 2; forbidden = true }

-- Two sockets arrived, and one of two workers has taken the first.
abbrev one_taken : Handler sockets_queue
one_taken = record {
  work_queue = (second ∷ [], false);
  worker_pool = idle ∷ busy first ∷ [];
  joined = 0;
  arrived = first ∷ second ∷ [];
  taken = first ∷ [];
  served = [];
}

takes_first : next (first ∷ second ∷ [], false) ≡ some (some first, (second ∷ [], false))
unfolding next
takes_first = refl

reaches : Reach sockets_queue 2 one_taken
reaches =
    later (later (later created (arrive first)) (arrive second))
      (round (take 1 first (second ∷ [], false) refl takes_first))

-- Then the queue is finished, and a callback that was pending enqueues one more.
abbrev late_one : Handler sockets_queue
late_one = record one_taken {
  work_queue = (second ∷ first ∷ [], true);
  arrived = first ∷ second ∷ first ∷ [];
}

Reach-IsConserved_example : IsConserved sockets_queue sockets_queue-IsQueue late_one
Reach-IsConserved_example =
    Reach-IsConserved sockets_queue sockets_queue-IsQueue
      (later (later reaches finish_queue) (arrive first))

-- The queue is finished, and then the second worker ends its round.
abbrev finished_one : Handler sockets_queue
finished_one = record one_taken { work_queue = (second ∷ [], true) }

abbrev returned_one : Handler sockets_queue
returned_one = record finished_one { worker_pool = idle ∷ idle ∷ []; served = first ∷ [] }

returns : Rounds sockets_queue sockets_queue-IsQueue finished_one 1 returned_one
returns = one_more none_yet (return 1 first refl)

Rounds-end_example :
    (1 ≤ rounds_left sockets_queue sockets_queue-IsQueue finished_one)
    × ((m : ℕ) × (h'' : Handler sockets_queue) × Rounds sockets_queue sockets_queue-IsQueue
          returned_one m h''
        × All (λ w. w ≡ ended) h''.worker_pool)
Rounds-end_example = Rounds-end sockets_queue sockets_queue-IsQueue refl returns
