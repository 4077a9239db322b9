-- ===== src/Workers/Refused.antt =====
-- From a listener to a worker of the HTTP handler: which connections reach its methods.
use threadserver.Prelude.{
  ℕ, ◌≡◌, refl, ap, ◌∙◌, Bool, true, false, not, none, some, List, [], ◌∷◌, ◌++◌, map, All, Bytes,
  ok,
}
use threadserver.Boost.{Boost}
use threadserver.Network.{Network}
use threadserver.Listener.{
  Remote, Listener, SocketWork, AcceptEvent, accepted, Acceptor, new_listener, listen,
}
use threadserver.Listener.Access.{admitted, is_forbidden-new_listener}
use threadserver.Listener.Accepting.{
  screened, waiting, AcceptEnd, ending, enqueued-idle_after, listen_lem,
}
use threadserver.Http.Library.{Library}
use threadserver.Http.Worker.{World, Registry}
use threadserver.Http.Worker.Handle.{handle, forbidden, on_io}
use threadserver.Workers.{Report, round, run}

module _ (lib : Library) where
  round-forbidden :
      (registry : Registry lib) (socket : SocketWork) (w : World lib) (reports : List Report)
      → socket.forbidden ≡ true
      → round (handle lib registry) socket (w, reports)
        ≡ round (λ s. on_io lib (forbidden lib)) socket (w, reports)
  unfolding round handle
  round-forbidden registry socket w reports f = rw (f, handle) refl

  -- How one socket is to be handled, by the networks that a listener was given: what `forbidden` does
  -- and nothing else, or what the handler does with a socket whose flag is not set.
  abbrev handle_as :
      Registry lib → Bytes → Remote → Bool → World lib × List Report → World lib × List Report
  handle_as registry address remote true state =
      round (handle lib registry)
        (record { listener = address; socket = remote; forbidden = false }) state
  handle_as registry address remote false state =
      round (λ s. on_io lib (forbidden lib))
        (record { listener = address; socket = remote; forbidden = true }) state

  abbrev handle_remote :
      (address : Bytes) (allowed denied : List Network) (registry : Registry lib) (remote : Remote)
      → World lib × List Report
      → World lib × List Report
  handle_remote address allowed denied registry remote =
      handle_as registry address remote (admitted allowed denied remote)

  abbrev pub handle_remotes :
      (address : Bytes) (allowed denied : List Network) (registry : Registry lib)
      → List Remote
      → World lib × List Report
      → World lib × List Report
  handle_remotes address allowed denied registry [] state = state
  handle_remotes address allowed denied registry (remote ∷ remotes) state =
      handle_remotes address allowed denied registry remotes
        (handle_remote address allowed denied registry remote state)

  round-handle_as :
      (l : Listener) (registry : Registry lib) (remote : Remote) (state : World lib × List Report)
      (admit : Bool)
      → (screened l remote).forbidden ≡ not admit
      → round (handle lib registry) (screened l remote) state
        ≡ handle_as registry l.address remote admit state
  round-handle_as l registry remote state true is =
      ap
        (λ (flag : Bool).
          round (handle lib registry)
            (record { listener = l.address; socket = remote; forbidden = flag }) state)
        is
  round-handle_as l registry remote (w, reports) false is =
      round-forbidden registry (screened l remote) w reports is
      ∙ ap
          (λ (flag : Bool).
            round (λ s. on_io lib (forbidden lib))
              (record { listener = l.address; socket = remote; forbidden = flag }) (w, reports))
          is

  run-handle_remotes :
      (l : Listener) (allowed denied : List Network) (registry : Registry lib)
      (remotes : List Remote) (state : World lib × List Report)
      → ((remote : Remote) → (screened l remote).forbidden ≡ not (admitted allowed denied remote))
      → run (handle lib registry) (map some (map (screened l) remotes) ++ none ∷ []) state
        ≡ handle_remotes l.address allowed denied registry remotes state
  unfolding run
  run-handle_remotes l allowed denied registry [] state is = refl
  run-handle_remotes l allowed denied registry (remote ∷ remotes) state is =
      ap (run (handle lib registry) (map some (map (screened l) remotes) ++ none ∷ []))
        (round-handle_as l registry remote state (admitted allowed denied remote) (is remote))
      ∙ run-handle_remotes l allowed denied registry remotes _ is

  handle_as-keeps :
      (registry : Registry lib) (address : Bytes) (remote : Remote) (admit : Bool)
      (state : World lib × List Report)
      → admit ≡ false
      → ((handle_as registry address remote admit state).0.work ≡ state.0.work)
        × ((handle_as registry address remote admit state).0.log ≡ state.0.log)
  unfolding round
  handle_as-keeps registry address remote true state e = cc
  handle_as-keeps registry address remote false state e = (refl, refl)

  handle_remotes-keeps :
      (address : Bytes) (allowed denied : List Network) (registry : Registry lib)
      (strangers : List Remote) (state : World lib × List Report)
      → All (λ r. admitted allowed denied r ≡ false) strangers
      → ((handle_remotes address allowed denied registry strangers state).0.work ≡ state.0.work)
        × ((handle_remotes address allowed denied registry strangers state).0.log ≡ state.0.log)
  handle_remotes-keeps address allowed denied registry [] state h = (refl, refl)
  handle_remotes-keeps address allowed denied registry (r ∷ strangers) state (p, h) =
      let (work, log) = handle_as-keeps registry address r (admitted allowed denied r) state p in
      let (works, logs) = handle_remotes-keeps address allowed denied registry strangers _ h in
      (works ∙ work, logs ∙ log)

  -- A listener was constructed with networks that allow and networks that deny. The connections that
  -- it accepts, up to the accept that ends its loop, from addresses of any kind and in any order, are
  -- enqueued; and a worker that dequeues them handles, in that order, one that comes from an IPv4
  -- address that is allowed and not denied as `handle` does a socket whose flag is not set, and does
  -- for any other connection what `forbidden` does and nothing else, so that no method of the registry
  -- is called for it. What a worker does for a row of the latter, in whatever state it is, changes
  -- neither `work` nor the log of the handler.
  pub run-listen :
      (b : Boost) (can_bind : Bytes → ℕ → Bool) (address handler_name : Bytes) (allow_first : Bool)
      (allowed denied : List Network) (l : Listener) (remotes strangers : List Remote)
      (end : AcceptEnd) (rest : List AcceptEvent) (registry : Registry lib)
      (state later : World lib × List Report)
      → new_listener b can_bind address handler_name allow_first allowed denied ≡ ok l
      → All (λ r. admitted allowed denied r ≡ false) strangers
      → let heard = listen l (map accepted remotes ++ (ending end ∷ rest)) (waiting [] 0) in
        let handled = handle_remotes l.address allowed denied registry in
        (run (handle lib registry) (map some heard.enqueued ++ none ∷ []) state
          ≡ handled remotes state)
        × ((handled strangers later).0.work ≡ later.0.work)
        × ((handled strangers later).0.log ≡ later.0.log)
  run-listen b can_bind address handler_name allow_first allowed denied l remotes strangers end rest
        registry state later made h =
      let served =
        λ (work : List SocketWork). run (handle lib registry) (map some work ++ none ∷ []) state in
      let (same_work, same_log) =
        handle_remotes-keeps l.address allowed denied registry strangers later h in
      (
        ap (λ (s : Acceptor). served s.enqueued) (listen_lem l remotes end rest [] 0)
            ∙ ap served (enqueued-idle_after end (map (screened l) remotes) 0)
            ∙ run-handle_remotes l allowed denied registry remotes state (λ r.
              is_forbidden-new_listener b can_bind address handler_name allow_first allowed denied l
                r made),
        same_work,
        same_log,
      )
