-- ===== src/Http/Thread/Registered.antt =====
-- A thread of the HTTP handler serves with the methods that its module registered.
use threadserver.Prelude.{
  ◌≡◌, refl, sym, ap, ◌∙◌, Bytes, Option, List, [], ◌∷◌, ◌++◌, map, All, Result, ok, err,
}
use mathlib.Core.List.{append_assoc, append-nil}
use threadserver.Listener.{SocketWork}
use threadserver.Http.Message.{Exception}
use threadserver.Http.Library.{Library}
use threadserver.Http.Worker.{World, Method, Registry}
use threadserver.Http.Worker.Handle.{handle}
use threadserver.Workers.{Report, run}
use threadserver.Http.Thread.{
  returned, terminated, register_method, register_all, run_worker, run_thread,
}

module _ (lib : Library) (regex_of : Bytes → Result Exception lib.Regex) where
  -- A location, its expression, and the method that is registered for it.
  abbrev pub Location : Type 0
  Location = Bytes × lib.Regex × Method lib

  abbrev pub IsValid : Location → Type 0
  IsValid l = regex_of l.0 ≡ ok l.1

  abbrev pub calls : List Location → List (Bytes × Method lib)
  calls ls = map (λ l. (l.0, l.2)) ls

  abbrev pub entries : List Location → Registry lib
  entries ls = map (λ l. (l.1, l.2)) ls

  register_all-append :
      (ls : List Location) (more : List (Bytes × Method lib)) (registry : Registry lib)
      → All IsValid ls
      → register_all lib regex_of (calls ls ++ more) registry
        ≡ register_all lib regex_of more (registry ++ entries ls)
  unfolding register_all register_method
  register_all-append [] more registry h =
      ap (register_all lib regex_of more) (sym (append-nil registry))
  register_all-append ((location, regex, method) ∷ ls) more registry (p, h) =
      rw (p, register_all)
        (register_all-append ls more (registry ++ (regex, method) ∷ []) h
          ∙ ap (register_all lib regex_of more)
              (append_assoc registry ((regex, method) ∷ []) (entries ls)))

  register_all-invalid :
      (location : Bytes) (method : Method lib) (more : List (Bytes × Method lib))
      (registry : Registry lib) (e : Exception)
      → regex_of location ≡ err e
      → register_all lib regex_of ((location, method) ∷ more) registry ≡ (err e, registry)
  unfolding register_all register_method
  register_all-invalid location method more registry e bad = rw (bad, register_all) refl

  -- A thread whose module registers methods under valid locations handles the sockets that it
  -- dequeues with just these methods, in the order of their registration, and then calls
  -- `threadDestroy` of the module. If the module goes on to
  -- register one under a location that is no expression, the thread handles no socket, and what was
  -- thrown leaves it, which ends the process.
  pub run_thread-register_all :
      (ls : List Location) (location : Bytes) (method : Method lib)
      (more : List (Bytes × Method lib)) (e : Exception) (thread_destroy : World lib → World lib)
      (dequeued : List (Option SocketWork)) (state : World lib × List Report)
      → All IsValid ls
      → regex_of location ≡ err e
      → let (w, reports) = run (handle lib (entries ls)) dequeued state in
        (run_thread lib regex_of
            (register_all lib regex_of (calls ls))
            thread_destroy
            dequeued
            state
          ≡ (returned, (thread_destroy w, reports)))
        × (run_thread lib regex_of
              (register_all lib regex_of (calls ls ++ ((location, method) ∷ more)))
              thread_destroy
              dequeued
              state
            ≡ (terminated e, state))
  unfolding run_thread register_all register_method
  run_thread-register_all ls location method more e thread_destroy dequeued state h bad = (
    ap (run_worker lib regex_of thread_destroy dequeued state) (
        ap (λ (c : List (Bytes × Method lib)). register_all lib regex_of c [])
          (sym (append-nil (calls ls)))
        ∙ register_all-append ls [] [] h),
    ap (run_worker lib regex_of thread_destroy dequeued state) (
        register_all-append ls ((location, method) ∷ more) [] h
        ∙ register_all-invalid location method more (entries ls) e bad),
  )
