-- ===== src/Http/Worker/Handle/Release.antt =====
-- However `Worker_t::handle` ends, it gives up the socket that it put into `handler->work`.
use threadserver.Prelude.{
  ◌≡◌, refl, sym, false, ◌⊎◌, inl, inr, none, some, arith, Result, ok, err, if◌then◌else◌,
  Bool-cases,
}
use threadserver.Prelude.Exec.{◌>>◌, handled}
use threadserver.Listener.{SocketWork}
use threadserver.Http.Message.{Exception, what, unknown}
use threadserver.Http.Library.{Library}
use threadserver.Http.Worker.{World, Registry, sliced}
use threadserver.Http.Worker.Handle.{serve, fail, handle_allowed, handle, release}

module _ (lib : Library) (registry : Registry lib) where
  fail_lem :
      (e : Exception) (w : World lib)
      → ((fail lib e w).1.work ≡ none)
        × ((fail lib e w).0 ≡ (elim (what e) [ some text ↦ err sliced | none ↦ err e ]))
  unfolding fail
  fail_lem e w = ground arith

  -- The end of the outer `try`: the socket is released, or the handlers run.
  abbrev pub conclude :
      Result Exception (Unit {0}) → World lib → Result Exception (Unit {0}) × World lib
  conclude (ok done) w = (ok tt, record w { work = none })
  conclude (err e) w = fail lib e w

  conclude-fail :
      (r : Result Exception (Unit {0})) (w : World lib)
      → conclude r w ≡ ◌>>◌ (λ s. handled (fail lib) r s) (release lib) w
  unfolding fail
  conclude-fail r w = ground arith

  pub handle_allowed_lem :
      (socket : SocketWork) (w : World lib)
      → let started = serve lib registry (record w { work = some socket }) in
        handle_allowed lib registry socket w ≡ conclude started.0 started.1
  unfolding handle_allowed
  handle_allowed_lem socket w = sym (conclude-fail _ _)

  work-conclude : (r : Result Exception (Unit {0})) (w : World lib) → (conclude r w).1.work ≡ none
  work-conclude (ok done) w = refl
  work-conclude (err e) w = (fail_lem e w).0

  -- After `handle` the thread's `work` is empty, whichever way the request was read, the method
  -- ended or the answer was sent; a socket from a forbidden address leaves it as it was.
  pub work-handle :
      (socket : SocketWork) (w : World lib)
      → (handle lib registry socket w).1.work ≡ (if socket.forbidden then w.work else none)
  unfolding handle
  work-handle socket w = elim (Bool-cases socket.forbidden) [
    | inl e ↦ simp e
    | inr e ↦ simp (e, handle_allowed_lem) (work-conclude _ _)
  ]

  thrown-conclude :
      (r : Result Exception (Unit {0})) (w : World lib) (e : Exception)
      → (conclude r w).0 ≡ err e
      → (e ≡ sliced) ⊎ (e ≡ unknown)
  unfolding fail what
  thrown-conclude (ok done) w e h = cc
  thrown-conclude (err x) w e h = ground arith

  -- What `handle` throws for a socket that is not forbidden is the bare copy of the base class, or a
  -- value that is no `std::exception`: the broken pipe of a sent answer never reaches the caller as
  -- such.
  pub thrown-handle :
      (socket : SocketWork) (w : World lib) (e : Exception)
      → socket.forbidden ≡ false
      → (handle lib registry socket w).0 ≡ err e
      → (e ≡ sliced) ⊎ (e ≡ unknown)
  unfolding handle
  thrown-handle socket w e h thrown =
      let started = serve lib registry (record w { work = some socket }) in
      thrown-conclude started.0 started.1 e (simp (h, handle_allowed_lem) at thrown)
