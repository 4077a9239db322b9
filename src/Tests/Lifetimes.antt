-- ===== src/Tests/Lifetimes.antt =====
-- An example of a server that is registered, runs and stops.
use threadserver.Prelude.{◌≡◌, true, false, some, [], ◌∷◌, ◌++◌, codes, Result, ok}
use threadserver.Boost.Sample.{sample}
use threadserver.Configuration.{Configuration, read_items}
use threadserver.Http.Message.{Exception}
use threadserver.Listener.{Listener}
use threadserver.Server.{Loader}
use threadserver.Server.Lifetime.{create_workers, run, stop}
use threadserver.Server.Lifetime.Through.{Through, state, names}
use threadserver.Server.Lifetime.Serving.{registered, Through-register}

abbrev pub configuration : Configuration
configuration = record {
  nodetach = true;
  handler_names = codes "h" ∷ [];
  listener_names = codes "l" ∷ [];
  pid_file = [];
  variables =
      read_items
        ((codes "h.Handler", codes "h.so:create")
          ∷ (codes "h.WorkerCount", codes "2")
          ∷ (codes "l.Address", codes "*:80")
          ∷ (codes "l.Handler", codes "h")
          ∷ (codes "l.Order", codes "allow,deny")
          ∷ (codes "l.Allow", codes "10.0.0.0/8")
          ∷ (codes "l.Deny", codes "10.0.0.1")
          ∷ [])
        [];
}

abbrev pub loader : Loader
loader = record {
  dlopen = λ filename. some 1;
  has_symbol = λ handle symbol. true;
  create =
      λ handle symbol name worker_count. ok (record { name = name; worker_count = worker_count });
}

abbrev pub opens : Listener → Result Exception (Unit {0})
opens l = ok tt

Through-register_example :
    let server = registered sample loader (λ ip port. true) configuration [] [] in
    Through server.listeners
      (λ s.
        (run server.listeners opens).1 ≡ ok tt
        → Through server.listeners
            (λ s'. s' ≡ state server.listeners [] [] [] false)
            (stop server.handlers server.listeners)
            s)
      (create_workers server.handlers ++ (run server.listeners opens).0)
      (state server.listeners (names server.handlers) [] [] false)
Through-register_example =
    Through-register sample loader (λ ip port. true) configuration [] [] opens
