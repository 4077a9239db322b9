-- ===== src/Frpc/Answers.antt =====
-- What the FRPC handler answers to forbidden addresses and to methods that throw.
use threadserver.Prelude.{◌≡◌, refl, ap, true, Bytes, Result, ok, err}
use threadserver.Prelude.Int.{ℤ}
use threadserver.Prelude.Exec.{Exec, handled}
use threadserver.Listener.{SocketWork}
use threadserver.Http.Message.{Exception}
use threadserver.Http.Library.{Library}
use threadserver.Frpc.{
  Served, World, bad_request_text, answer_bad, forbidden, handle, Thrown, rpc_error, std_exception,
  unknown, answer_thrown, call_bound,
}

module _ (lib : Library) where
  open lib use {Io, send_raw}

  sent-handled :
      (r : Result Exception (Unit {0})) (io : Io)
      → ((io : Io) → (send_raw bad_request_text io).0 ≡ ok tt)
      → (handled (answer_bad lib) r io).0 ≡ ok tt
  sent-handled (ok done) io h = refl
  sent-handled (err e) io h = rw (h io) refl

  -- For a socket from a forbidden address, the FRPC handler never calls `serve` and leaves the thread's
  -- headers and `work` alone; and if the text of 400 can always be sent it throws nothing, whatever is
  -- thrown while the request is read or the 403 is sent.
  pub handle-forbidden :
      (serve : Exec (Served lib) Exception (Unit {0})) (socket : SocketWork) (w : World lib)
      → socket.forbidden ≡ true
      → ((io : Io) → (send_raw bad_request_text io).0 ≡ ok tt)
      → handle lib serve socket w ≡ (ok tt, record w { io = (forbidden lib w.io).1 })
  unfolding handle forbidden
  handle-forbidden serve socket w f h =
      rw (f, handle)
        (ap (λ (r : Result Exception (Unit {0})). (r, record w { io = (forbidden lib w.io).1 }))
          (sent-handled _ _ h))

module _ {Pool Value : Type 0} (status : ℤ → Bytes → Pool → Value × Pool) where
  abbrev pub Escapes : Thrown → Pool → Result Thrown Value × Pool → Type 0
  Escapes e pool left = (left ≡ (err unknown, pool)) × (e ≡ unknown)

  answered-Escapes :
      (r : Result Thrown Value) (pool pool' : Pool) (e : Thrown)
      → handled (answer_thrown status) r pool ≡ (err e, pool')
      → Escapes e pool' (r, pool)
  unfolding answer_thrown
  answered-Escapes (ok value) pool pool' e h = cc
  answered-Escapes (err (rpc_error code text)) pool pool' e h = cc
  answered-Escapes (err (std_exception text)) pool pool' e h = cc
  answered-Escapes (err unknown) pool pool' e h = (cc, cc)

  -- Of what a bound method throws, only a value that is no `RpcError_t` and no `std::exception` leaves
  -- its call, and then no status was made; every other end of a method gives the caller a value.
  call_bound-throws :
      (handler : Exec Pool Thrown Value) (pool pool' : Pool) (e : Thrown)
      → call_bound status handler pool ≡ (err e, pool')
      → Escapes e pool' (handler pool)
  unfolding call_bound
  call_bound-throws handler pool pool' e h =
      answered-Escapes (handler pool).0 (handler pool).1 pool' e h
