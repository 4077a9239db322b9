-- ===== src/Tests/Refusals.antt =====
-- An example of connections that a listener lets in and refuses, from their accept to the worker.
use threadserver.Prelude.{
  List, ◌+◌, ◌*◌, ◌^◌, ◌≡◌, refl, true, false, some, none, [], ◌∷◌, ◌++◌, map, codes,
}
use threadserver.Boost.Sample.{sample}
use threadserver.Network.{contains}
use threadserver.Listener.{Remote, v4, other, accepted, listen}
use threadserver.Listener.Accepting.{waiting, by_cancel, ending}
use threadserver.Http.Worker.Handle.{handle}
use threadserver.Workers.{Report, run}
use threadserver.Http.Worker.{World}
use threadserver.Workers.Refused.{handle_remotes, run-listen}
use threadserver.Tests.Listeners.{ten_net, ten_one, local, local_lem}
use threadserver.Tests.Requests.{wire, registry, world, line_of_hello}

abbrev callers : List Remote
callers = v4 (10 * 2 ^ 24 + 1) ∷ v4 (10 * 2 ^ 24 + 2) ∷ other (codes "::1") ∷ v4 5 ∷ []

abbrev state : World wire × List Report
state = (world line_of_hello, [])

run-listen_example :
    let heard =
      listen local
        (map accepted callers ++ (ending by_cancel ∷ accepted (v4 2) ∷ []))
        (waiting [] 0) in
    let handled = handle_remotes wire (codes "*:80") (ten_net ∷ []) (ten_one ∷ []) registry in
    (run (handle wire registry) (map some heard.enqueued ++ none ∷ []) state
      ≡ handled callers state)
    × ((handled (other (codes "::1") ∷ v4 5 ∷ []) state).0.work ≡ none)
    × ((handled (other (codes "::1") ∷ v4 5 ∷ []) state).0.log ≡ [])
unfolding contains
run-listen_example =
    run-listen wire sample (λ ip port. true) (codes "*:80") (codes "a") false (ten_net ∷ [])
      (ten_one ∷ []) local callers (other (codes "::1") ∷ v4 5 ∷ []) by_cancel
      (accepted (v4 2) ∷ []) registry state state local_lem (refl, (refl, tt))
