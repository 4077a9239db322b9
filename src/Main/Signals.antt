-- ===== src/Main/Signals.antt =====
-- What a sequence of signals does to a process.
use mathlib.Core.List.{append_assoc, append-nil}
use threadserver.Prelude.{
  ℕ, ◌≡◌, refl, ap, ◌∙◌, true, ◌&&◌, not, List, [], ◌∷◌, ◌++◌, map, any, Result, ok, err, ◌==◌,
  if◌then◌else◌, arith,
}
use threadserver.Main.{Process, is_ending, forward, signal_handler, deliver, runs, returns, main}

abbrev pub forwarded : ℕ → List ℕ → List (ℕ × ℕ)
forwarded pid signals = if pid == 0 then [] else map (λ signo. (pid, signo)) signals

child_pid-signal_handler :
    (signo : ℕ) (p : Process) → (signal_handler signo p).child_pid ≡ p.child_pid
unfolding signal_handler forward
child_pid-signal_handler signo p = ground arith

kills-signal_handler :
    (signo : ℕ) (p : Process)
    → (signal_handler signo p).kills ≡ p.kills ++ forwarded p.child_pid (signo ∷ [])
unfolding signal_handler forward
kills-signal_handler signo p = ground (arith, append-nil p.kills)

is_running-signal_handler :
    (signo : ℕ) (p : Process)
    → (signal_handler signo p).is_running ≡ (p.is_running && not (is_ending signo))
unfolding signal_handler forward
is_running-signal_handler signo p = ground arith

forwarded-cons :
    (pid signo : ℕ) (signals : List ℕ)
    → forwarded pid (signo ∷ []) ++ forwarded pid signals ≡ forwarded pid (signo ∷ signals)
forwarded-cons pid signo signals = ground arith

-- Each signal that arrives is passed on to the child, if there is one, in the order of arrival; and
-- the process goes on running exactly as long as none of them is SIGINT or SIGTERM.
pub deliver_lem :
    (signals : List ℕ) (p : Process)
    → ((deliver signals p).kills ≡ p.kills ++ forwarded p.child_pid signals)
      × ((deliver signals p).is_running ≡ (p.is_running && not (any is_ending signals)))
unfolding deliver
deliver_lem [] p = (ground (arith, append-nil p.kills), ground arith)
deliver_lem (signo ∷ signals) p =
    let (kills, running) = deliver_lem signals (signal_handler signo p) in
    (
      kills
          ∙ rw (kills-signal_handler signo p, child_pid-signal_handler signo p)
              (append_assoc p.kills (forwarded p.child_pid (signo ∷ []))
                  (forwarded p.child_pid signals)
                ∙ ap (λ (l : List (ℕ × ℕ)). p.kills ++ l)
                    (forwarded-cons p.child_pid signo signals)),
      running ∙ ground (arith, is_running-signal_handler signo p),
    )

-- `main` of a process that is running returns 1 if the server cannot be made or run; else it runs
-- on until SIGINT or SIGTERM has arrived, and then returns 0, or 1 if the server's stop fails.
main_lem :
    {E : Type 0} (construct run stop : Result E (Unit {0})) (signals : List ℕ) (p : Process)
    → p.is_running ≡ true
    → main construct run stop signals p ≡ (elim construct [
      | err e ↦ returns 1
      | ok done ↦ elim run [
        | err e ↦ returns 1
        | ok done ↦
            if any is_ending signals
            then elim stop [ ok done ↦ returns 0 | err e ↦ returns 1 ]
            else runs
      ]
    ])
unfolding main
main_lem (err e) run stop signals p h = refl
main_lem (ok done) (err e) stop signals p h = refl
main_lem (ok done) (ok done') stop signals p h = ground (arith, (deliver_lem signals p).1)
