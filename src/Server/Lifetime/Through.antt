-- ===== src/Server/Lifetime/Through.antt =====
-- What the calls of `createWorkers`, `run` and `stop` do, each loop by itself.
use mathlib.Core.List.{append_assoc, append-nil}
use mathlib.Core.Path.{subst}
use threadserver.Prelude.{
  ◌≡◌, refl, sym, ap, ◌∙◌, Bool, true, false, Option, some, List, [], ◌∷◌, ◌++◌, map, Bytes,
  same_refl, All, All-append, Result, ok, err,
}
use threadserver.Prelude.Map.{Map, lookup}
use threadserver.Listener.{Listener}
use threadserver.Http.Message.{Exception}
use threadserver.Server.{Handler}
use threadserver.Server.Lifetime.{
  Call, create_workers_of, stop_listener, delete_handler, Running, deleted, removed, has, perform,
  ran, run_listeners, stop,
}

abbrev pub names {ℓ} : {V : Type ℓ} → Map V → List Bytes
names m = map (λ entry. entry.0) m

module _ (listeners : Map Listener) where
  -- The listener of an address is wired to a handler that is there and has its workers.
  abbrev pub ServesIn : (handlers working : List Bytes) → Bytes → Type 0
  ServesIn handlers working address =
      (l : Listener) × (lookup address listeners ≡ some l)
      × (l.handler ≡ some l.handler_name)
      × (has l.handler_name handlers ≡ true)
      × (has l.handler_name working ≡ true)

  abbrev pub IsServing : Running → Type 0
  IsServing s = All (ServesIn s.handlers s.working) s.listening

  -- Every call is defined, the server serves before each and behind the last, and `Q` holds behind
  -- the last.
  abbrev pub Through : (Running → Type 0) → List Call → Running → Type 0
  Through Q [] s = IsServing s × Q s
  Through Q (call ∷ calls) s =
      IsServing s × ((s' : Running) × (perform call s ≡ ok s') × Through Q calls s')

  pub Through-append :
      (Q : Running → Type 0) (calls more : List Call) (s t : Running)
      → Through (λ s'. s' ≡ t) calls s
      → Through Q more t
      → Through Q (calls ++ more) s
  Through-append Q [] more s t (serving, e) h = subst (Through Q more) (sym e) h
  Through-append Q (call ∷ calls) more s t (serving, (s', e, rest)) h =
      (serving, (s', e, Through-append Q calls more s' t rest h))

  abbrev pub state : (handlers working listening : List Bytes) → Bool → Running
  state handlers working listening io = record {
    handlers = handlers;
    working = working;
    listening = listening;
    io_service_runs = io;
  }

  pub Through-weaken :
      (P Q : Running → Type 0) (calls : List Call) (s : Running)
      → ((s' : Running) → P s' → Q s')
      → Through P calls s
      → Through Q calls s
  Through-weaken P Q [] s f (serving, p) = (serving, f s p)
  Through-weaken P Q (call ∷ calls) s f (serving, (s', e, rest)) =
      (serving, (s', e, Through-weaken P Q calls s' f rest))

  pub Through-create_workers :
      {V : Type 0} (hs : Map V) (handlers working : List Bytes)
      → All (λ name. has name handlers ≡ true) (names hs)
      → Through
          (λ s'. s' ≡ state handlers (working ++ names hs) [] false)
          (map (λ entry. create_workers_of entry.0) hs)
          (state handlers working [] false)
  unfolding perform
  Through-create_workers [] handlers working h = (tt, rw (append-nil working) refl)
  Through-create_workers ((name, v) ∷ hs) handlers working (p, h) = (
    tt,
    (
      _,
      rw p refl,
      subst
          (λ w.
            Through (λ s'. s' ≡ state handlers w [] false)
              (map (λ entry. create_workers_of entry.0) hs)
              (state handlers (working ++ name ∷ []) [] false))
          (append_assoc working (name ∷ []) (names hs))
          (Through-create_workers hs handlers (working ++ name ∷ []) h),
    ),
  )

  -- What holds behind the calls of `run`: if it returns, every listener listens.
  abbrev pub Ran :
      List Bytes → List Bytes → List Bytes → Result Exception (Unit {0}) → Running → Type 0
  Ran handlers working listening r s' = r ≡ ok tt → s' ≡ state handlers working listening true

  Through-ran :
      (address : Bytes) (r : Result Exception (Unit {0})) (calls : List Call)
      (r' : Result Exception (Unit {0})) (handlers working listening final : List Bytes)
      → All (ServesIn handlers working) listening
      → Through
          (Ran handlers working final r')
          calls
          (state handlers working (listening ++ address ∷ []) false)
      → let (calls', r'') = ran address r (calls, r') in
        Through (Ran handlers working final r'') calls' (state handlers working listening false)
  unfolding perform
  Through-ran address (err e) calls r' handlers working listening final h g = (h, λ p. cc)
  Through-ran address (ok done) calls r' handlers working listening final h g = (h, (_, refl, g))

  pub Through-run :
      (opens : Listener → Result Exception (Unit {0})) (ls : Map Listener)
      (handlers working listening : List Bytes)
      → All (ServesIn handlers working) listening
      → All (ServesIn handlers working) (names ls)
      → let (calls, r) = run_listeners opens ls in
        Through
          (Ran handlers working (listening ++ names ls) r)
          calls
          (state handlers working listening false)
  unfolding perform
  Through-run opens [] handlers working listening h g =
      (h, (_, refl, (h, λ e. rw (append-nil listening) refl)))
  Through-run opens ((address, l) ∷ ls) handlers working listening h (p, g) =
      Through-ran address (opens l) (run_listeners opens ls).0 (run_listeners opens ls).1 handlers
        working listening _ h
        (subst
          (λ final.
            Through (Ran handlers working final (run_listeners opens ls).1)
              (run_listeners opens ls).0 (state handlers working (listening ++ address ∷ []) false))
          (append_assoc listening (address ∷ []) (names ls))
          (Through-run opens ls handlers working (listening ++ address ∷ [])
            (All-append (ServesIn handlers working) listening (address ∷ []) h (p, tt)) g))

  removed-first : (name : Bytes) (ns : List Bytes) → removed name (name ∷ ns) ≡ some ns
  unfolding removed
  removed-first name ns = rw (same_refl name) refl

  perform-stop_listener :
      (handlers working listening : List Bytes) (address : Bytes)
      → perform (stop_listener address) (state handlers working (address ∷ listening) true)
        ≡ ok (state handlers working listening true)
  unfolding perform
  perform-stop_listener handlers working listening address =
      rw (removed-first address listening, perform) refl

  perform-delete_handler :
      (name : Bytes) (ns : List Bytes)
      → perform (delete_handler name) (state (name ∷ ns) (name ∷ ns) [] true)
        ≡ ok (state ns ns [] true)
  unfolding perform
  perform-delete_handler name ns =
      ap (λ (o : Option (List Bytes)). deleted name o (state (name ∷ ns) (name ∷ ns) [] true))
        (removed-first name ns)
      ∙ rw (removed-first name ns, deleted) refl

  Through-stop_listeners :
      {V : Type 0} (ls : Map V) (handlers working : List Bytes)
      → All (ServesIn handlers working) (names ls)
      → Through
          (λ s'. s' ≡ state handlers working [] true)
          (map (λ entry. stop_listener entry.0) ls)
          (state handlers working (names ls) true)
  unfolding perform
  Through-stop_listeners [] handlers working g = (tt, refl)
  Through-stop_listeners ((address, l) ∷ ls) handlers working (p, g) = (
    (p, g),
    (
      _,
      perform-stop_listener handlers working (names ls) address,
      Through-stop_listeners ls handlers working g,
    ),
  )

  Through-delete_handlers :
      {V : Type 0} (hs : Map V)
      → Through
          (λ s'. s' ≡ state [] [] [] true)
          (map (λ entry. delete_handler entry.0) hs)
          (state (names hs) (names hs) [] true)
  unfolding perform
  Through-delete_handlers [] = (tt, refl)
  Through-delete_handlers ((name, v) ∷ hs) =
      (tt, (_, perform-delete_handler name (names hs), Through-delete_handlers hs))

  pub Through-stop :
      (handlers : Map Handler) (ls : Map Listener)
      → All (ServesIn (names handlers) (names handlers)) (names ls)
      → Through
          (λ s'. s' ≡ state [] [] [] false)
          (stop handlers ls)
          (state (names handlers) (names handlers) (names ls) true)
  unfolding stop perform
  Through-stop handlers ls g =
      Through-append _ _ _ _ _ (Through-stop_listeners ls (names handlers) (names handlers) g)
        (Through-append _ _ _ _ _ (Through-delete_handlers handlers) (tt, (_, refl, (tt, refl))))
