-- ===== src/Workers/Pool/Shutdown.antt =====
-- Once the queue is finished, the workers of a pool end.
use threadserver.Prelude.{
  ℕ, zero, suc, ◌+◌, ◌≤◌, ◌<◌, ◌≡◌, refl, ap, ◌∙◌, ◌⊎◌, inl, inr, none, some, Option-cases, true,
  List, [], ◌∷◌, get_elem?, length, All, arith,
}
use threadserver.Listener.{SocketWork}
use threadserver.Workers.Pool.{
  Queue, IsQueue, Worker, idle, busy, ended, put, Handler, Round, take, return, leave,
}

-- How many rounds a worker can still make of itself, and a pool.
abbrev pub load : List Worker → ℕ
load [] = 0
load (idle ∷ ws) = 1 + load ws
load (busy socket ∷ ws) = 2 + load ws
load (ended ∷ ws) = load ws

load-put_busy :
    (ws : List Worker) (i : ℕ) (socket : SocketWork)
    → get_elem? ws i ≡ some idle
    → load (put ws i (busy socket)) ≡ load ws + 1
load-put_busy [] i socket e = cc
load-put_busy (idle ∷ ws) zero socket e = omega arith
load-put_busy (busy s ∷ ws) zero socket e = cc
load-put_busy (ended ∷ ws) zero socket e = cc
load-put_busy (idle ∷ ws) (suc i) socket e = omega (arith, load-put_busy ws i socket e)
load-put_busy (busy s ∷ ws) (suc i) socket e = omega (arith, load-put_busy ws i socket e)
load-put_busy (ended ∷ ws) (suc i) socket e = load-put_busy ws i socket e

load-put_idle :
    (ws : List Worker) (i : ℕ) (socket : SocketWork)
    → get_elem? ws i ≡ some (busy socket)
    → load (put ws i idle) + 1 ≡ load ws
load-put_idle [] i socket e = cc
load-put_idle (idle ∷ ws) zero socket e = cc
load-put_idle (busy s ∷ ws) zero socket e = omega arith
load-put_idle (ended ∷ ws) zero socket e = cc
load-put_idle (idle ∷ ws) (suc i) socket e = omega (arith, load-put_idle ws i socket e)
load-put_idle (busy s ∷ ws) (suc i) socket e = omega (arith, load-put_idle ws i socket e)
load-put_idle (ended ∷ ws) (suc i) socket e = load-put_idle ws i socket e

load-put_ended :
    (ws : List Worker) (i : ℕ) → get_elem? ws i ≡ some idle → load (put ws i ended) + 1 ≡ load ws
load-put_ended [] i e = cc
load-put_ended (idle ∷ ws) zero e = omega arith
load-put_ended (busy s ∷ ws) zero e = cc
load-put_ended (ended ∷ ws) zero e = cc
load-put_ended (idle ∷ ws) (suc i) e = omega (arith, load-put_ended ws i e)
load-put_ended (busy s ∷ ws) (suc i) e = omega (arith, load-put_ended ws i e)
load-put_ended (ended ∷ ws) (suc i) e = load-put_ended ws i e

-- A worker that has not ended, if there is one.
unended :
    (ws : List Worker)
    → All (λ w. w ≡ ended) ws
      ⊎ ((i : ℕ) × ((get_elem? ws i ≡ some idle)
            ⊎ ((socket : SocketWork) × (get_elem? ws i ≡ some (busy socket)))))
unended [] = inl tt
unended (idle ∷ ws) = inr (0, inl refl)
unended (busy socket ∷ ws) = inr (0, inr (socket, refl))
unended (ended ∷ ws) = elim (unended ws) [ inl h ↦ inl (refl, h) | inr (i, e) ↦ inr (suc i, e) ]

module _ (queue : Queue) (law : IsQueue queue) where
  open queue use {dequeue, waiting, is_finished}

  -- Rounds of workers, one after another, with their number.
  pub data Rounds (h : Handler queue) : ℕ → Handler queue → Type 0 where
    none_yet : Rounds h 0 h
    one_more :
        {n : ℕ} {h' h'' : Handler queue} → Rounds h n h' → Round queue h' h'' → Rounds h (suc n) h''

  -- The rounds that a pool can still make: each waiting socket costs two.
  abbrev pub rounds_left : Handler queue → ℕ
  rounds_left h = length (waiting h.work_queue) + length (waiting h.work_queue) + load h.worker_pool

  rounds_left-Round :
      {h h' : Handler queue} → Round queue h h' → suc (rounds_left h') ≡ rounds_left h
  rounds_left-Round {h} (take i socket q e d) = omega (
    arith,
    ap length (law.dequeue-some socket h.work_queue q d).0,
    load-put_busy h.worker_pool i socket e,
  )
  rounds_left-Round {h} (return i socket e) = omega (arith, load-put_idle h.worker_pool i socket e)
  rounds_left-Round {h} (leave i q e d) =
      omega
        (arith, ap length (law.dequeue-none h.work_queue q d).0, load-put_ended h.worker_pool i e)

  rounds_left-Rounds :
      {h : Handler queue} {n : ℕ} {h' : Handler queue}
      → Rounds h n h'
      → n + rounds_left h' ≡ rounds_left h
  rounds_left-Rounds none_yet = omega arith
  rounds_left-Rounds (one_more {n} rs r) = omega (arith, rounds_left-Rounds rs, rounds_left-Round r)

  is_finished-Round :
      {h h' : Handler queue}
      → Round queue h h'
      → is_finished h'.work_queue ≡ is_finished h.work_queue
  is_finished-Round {h} (take i socket q e d) = (law.dequeue-some socket h.work_queue q d).1
  is_finished-Round (return i socket e) = refl
  is_finished-Round {h} (leave i q e d) = (law.dequeue-none h.work_queue q d).1

  is_finished-Rounds :
      {h : Handler queue} {n : ℕ} {h' : Handler queue}
      → Rounds h n h'
      → is_finished h'.work_queue ≡ is_finished h.work_queue
  is_finished-Rounds none_yet = refl
  is_finished-Rounds (one_more rs r) = is_finished-Round r ∙ is_finished-Rounds rs

  -- A worker that has not ended can make a round, once the queue is finished.
  next_round :
      (h : Handler queue)
      → is_finished h.work_queue ≡ true
      → All (λ w. w ≡ ended) h.worker_pool ⊎ ((h' : Handler queue) × Round queue h h')
  next_round h f = elim (unended h.worker_pool) [
    | inl e ↦ inl e
    | inr (i, inr (socket, e)) ↦ inr (_, return i socket e)
    | inr (i, inl e) ↦ elim (Option-cases (dequeue h.work_queue)) [
      | inl d ↦ absurd (law.dequeue-ne-none h.work_queue f d)
      | inr ((none, q), d) ↦ inr (_, leave i q e d)
      | inr ((some socket, q), d) ↦ inr (_, take i socket q e d)
    ]
  ]

  Ended : Handler queue → Type 0
  Ended h = (m : ℕ) × (h' : Handler queue) × Rounds h m h' × All (λ w. w ≡ ended) h'.worker_pool

  Rounds-Ended :
      (k : ℕ) (h : Handler queue) {n : ℕ} (h' : Handler queue)
      → is_finished h.work_queue ≡ true
      → Rounds h n h'
      → rounds_left h' < k
      → Ended h
  unfolding Ended
  Rounds-Ended zero h h' f rs less = absurd (omega arith)
  Rounds-Ended (suc k) h {n} h' f rs less = elim (next_round h' (is_finished-Rounds rs ∙ f)) [
    | inl e ↦ (n, h', rs, e)
    | inr (h'', r) ↦ Rounds-Ended k h h'' f (one_more rs r) (omega (arith, rounds_left-Round r))
  ]

  -- After `finish` the workers come to an end, whatever they do and in whatever order: they make at
  -- most two rounds for each socket that waits, two for each worker that holds one and one for each
  -- worker that waits; and from wherever they are, further rounds end every one of them.
  pub Rounds-end :
      {n : ℕ} {h h' : Handler queue}
      → is_finished h.work_queue ≡ true
      → Rounds h n h'
      → (n ≤ rounds_left h)
        × ((m : ℕ) × (h'' : Handler queue) × Rounds h' m h'' × All (λ w. w ≡ ended) h''.worker_pool)
  unfolding Ended
  Rounds-end {h' = h'} f rs = (
    omega (arith, rounds_left-Rounds rs),
    Rounds-Ended (suc (rounds_left h')) h' h' (is_finished-Rounds rs ∙ f) none_yet (omega arith),
  )
