-- ===== src/Workers/Pool/Conserved.antt =====
-- No socket is lost or handled twice, and sockets are dequeued in the order in which they arrived.
use mathlib.Core.List.{append_assoc, Perm, perm_middle, perm_append_singleton}
use mathlib.Core.List.Perm
use threadserver.Prelude.{
  ℕ, zero, suc, ◌≡◌, refl, sym, ap, ◌∙◌, some, List, [], ◌∷◌, ◌++◌, get_elem?,
}
use threadserver.Listener.{SocketWork}
use threadserver.Workers.Pool.{
  Queue, IsQueue, Worker, idle, busy, ended, put, idle_workers, Handler, Round, take, return, leave,
  Step, round, arrive, finish_queue, join, Reach, created, later,
}

-- The sockets that workers hold.
abbrev pub held : List Worker → List SocketWork
held [] = []
held (busy socket ∷ ws) = socket ∷ held ws
held (idle ∷ ws) = held ws
held (ended ∷ ws) = held ws

held-idle_workers : (n : ℕ) → held (idle_workers n) ≡ []
held-idle_workers zero = refl
held-idle_workers (suc n) = held-idle_workers n

held-put_busy :
    (ws : List Worker) (i : ℕ) (socket : SocketWork)
    → get_elem? ws i ≡ some idle
    → Perm (socket ∷ held ws) (held (put ws i (busy socket)))
held-put_busy [] i socket e = cc
held-put_busy (idle ∷ ws) zero socket e = Perm.refl _
held-put_busy (busy s ∷ ws) zero socket e = cc
held-put_busy (ended ∷ ws) zero socket e = cc
held-put_busy (idle ∷ ws) (suc i) socket e = held-put_busy ws i socket e
held-put_busy (ended ∷ ws) (suc i) socket e = held-put_busy ws i socket e
held-put_busy (busy s ∷ ws) (suc i) socket e =
    Perm.trans (Perm.swap s socket (held ws)) (Perm.cons s (held-put_busy ws i socket e))

held-put_idle :
    (ws : List Worker) (i : ℕ) (socket : SocketWork)
    → get_elem? ws i ≡ some (busy socket)
    → Perm (held ws) (socket ∷ held (put ws i idle))
held-put_idle [] i socket e = cc
held-put_idle (idle ∷ ws) zero socket e = cc
held-put_idle (ended ∷ ws) zero socket e = cc
held-put_idle (busy s ∷ ws) zero socket e =
    let same : s ≡ socket = cc in rw same (Perm.refl (socket ∷ held ws))
held-put_idle (idle ∷ ws) (suc i) socket e = held-put_idle ws i socket e
held-put_idle (ended ∷ ws) (suc i) socket e = held-put_idle ws i socket e
held-put_idle (busy s ∷ ws) (suc i) socket e =
    Perm.trans (Perm.cons s (held-put_idle ws i socket e))
      (Perm.swap socket s (held (put ws i idle)))

held-put_ended :
    (ws : List Worker) (i : ℕ) → get_elem? ws i ≡ some idle → held (put ws i ended) ≡ held ws
held-put_ended [] i e = cc
held-put_ended (idle ∷ ws) zero e = refl
held-put_ended (busy s ∷ ws) zero e = cc
held-put_ended (ended ∷ ws) zero e = cc
held-put_ended (idle ∷ ws) (suc i) e = held-put_ended ws i e
held-put_ended (ended ∷ ws) (suc i) e = held-put_ended ws i e
held-put_ended (busy s ∷ ws) (suc i) e = ap (λ (l : List SocketWork). s ∷ l) (held-put_ended ws i e)

module _ (queue : Queue) (law : IsQueue queue) where
  open queue use {waiting}

  pub record IsConserved (h : Handler queue) : Type 0 where
    pub in_order : h.arrived ≡ h.taken ++ waiting h.work_queue
    pub kept : Perm h.taken (h.served ++ held h.worker_pool)

  Round-IsConserved : {h h' : Handler queue} → Round queue h h' → IsConserved h → IsConserved h'
  Round-IsConserved {h} (take i socket q e d) c = record {
    in_order =
        c.in_order
        ∙ ap (λ (l : List SocketWork). h.taken ++ l) (law.dequeue-some socket h.work_queue q d).0
        ∙ sym (append_assoc h.taken (socket ∷ []) (waiting q));
    kept = Perm.trans (perm_append_singleton socket h.taken) (
        Perm.trans (Perm.cons socket c.kept) (
          Perm.trans (Perm.symm (perm_middle h.served (held h.worker_pool)))
            (Perm.append_left h.served (held-put_busy h.worker_pool i socket e))));
  }
  Round-IsConserved {h} (return i socket e) c = record {
    in_order = c.in_order;
    kept =
        rw (append_assoc h.served (socket ∷ []) (held (put h.worker_pool i idle)))
          (Perm.trans c.kept (Perm.append_left h.served (held-put_idle h.worker_pool i socket e)));
  }
  Round-IsConserved {h} (leave i q e d) c = record {
    in_order =
        c.in_order
        ∙ ap (λ (l : List SocketWork). h.taken ++ l) (sym (law.dequeue-none h.work_queue q d).0);
    kept = rw (held-put_ended h.worker_pool i e) c.kept;
  }

  Step-IsConserved : {h h' : Handler queue} → Step queue h h' → IsConserved h → IsConserved h'
  Step-IsConserved (round r) c = Round-IsConserved r c
  Step-IsConserved {h} (arrive socket) c = record {
    in_order =
        ap (λ (l : List SocketWork). l ++ socket ∷ []) c.in_order
        ∙ append_assoc h.taken (waiting h.work_queue) (socket ∷ [])
        ∙ ap (λ (l : List SocketWork). h.taken ++ l)
            (sym (law.waiting-enqueue socket h.work_queue));
    kept = c.kept;
  }
  Step-IsConserved {h} finish_queue c = record {
    in_order =
        c.in_order
        ∙ ap (λ (l : List SocketWork). h.taken ++ l) (sym (law.waiting-finish h.work_queue));
    kept = c.kept;
  }
  Step-IsConserved (join e f) c = record { in_order = c.in_order; kept = c.kept }

  -- However the threads interleave, the listeners' callbacks that come after `finish` included: the sockets that arrived are those that were dequeued, in that
  -- order, followed by those that the queue holds; and those that were dequeued are, each as often,
  -- those that were handled and those that a worker holds.
  pub Reach-IsConserved :
      {worker_count : ℕ} {h : Handler queue} → Reach queue worker_count h → IsConserved h
  Reach-IsConserved {worker_count} created = record {
    in_order = sym law.waiting-empty;
    kept = rw (held-idle_workers worker_count) (Perm.refl []);
  }
  Reach-IsConserved (later r st) = Step-IsConserved st (Reach-IsConserved r)
