-- ===== src/Server/Loading.antt =====
-- What loads of handlers do to the references to shared objects.
use threadserver.Prelude.{some, Option, [], ℕ, ◌≡◌, List, ◌∷◌, Bytes, ok, arith}
use threadserver.Server.{
  Server, ServerError, handler_already_registered, Loader, register_handler, use_handle,
  load_handler, close, close_all, insert_handle,
}

pub close-cons : (h : ℕ) (opened : List ℕ) → close h (h ∷ opened) ≡ opened
unfolding close
close-cons h opened = ground arith

-- One reference more, if the error is a name that is taken, and else the server as it was.
abbrev pub LeftBy : (opened : Option ℕ) → Server → ServerError → Server → Type 0
LeftBy opened s (handler_already_registered name) s' =
    (handle : ℕ) × (opened ≡ some handle) × (s' ≡ record s { opened = handle ∷ s.opened })
LeftBy opened s e s' = s' ≡ s

abbrev holding : ℕ → Server → Server
holding handle s = record s { opened = handle ∷ s.opened }

-- A load that succeeds takes one reference more to the shared object, and puts its handle into the
-- set, where it stands once.
load_handler-ok :
    (loader : Loader) (name filename symbol : Bytes) (worker_count handle : ℕ) (s s' : Server)
    → loader.dlopen filename ≡ some handle
    → load_handler loader name filename symbol worker_count s ≡ (ok tt, s')
    → (s'.opened ≡ handle ∷ s.opened)
      × (s'.handler_handles ≡ insert_handle handle s.handler_handles)
unfolding load_handler use_handle register_handler
load_handler-ok loader name filename symbol worker_count handle s s' found h = ground arith

-- Two handlers that a server with none is given from one shared object: the loader counts two
-- references, the set of handles has one entry, and the destructor leaves one reference open.
pub close_all-load_handler :
    (loader : Loader) (name1 name2 filename symbol1 symbol2 : Bytes) (count1 count2 handle : ℕ)
    (s s1 s2 : Server)
    → loader.dlopen filename ≡ some handle
    → s.opened ≡ []
    → s.handler_handles ≡ []
    → load_handler loader name1 filename symbol1 count1 s ≡ (ok tt, s1)
    → load_handler loader name2 filename symbol2 count2 s1 ≡ (ok tt, s2)
    → (s2.opened ≡ handle ∷ handle ∷ [])
      × (s2.handler_handles ≡ handle ∷ [])
      × (close_all s2.handler_handles s2.opened ≡ handle ∷ [])
unfolding insert_handle close_all close
close_all-load_handler loader name1 name2 filename symbol1 symbol2 count1 count2 handle s s1 s2
      found o h l1 l2 =
    let (o1, h1) = load_handler-ok loader name1 filename symbol1 count1 handle s s1 found l1 in
    let (o2, h2) = load_handler-ok loader name2 filename symbol2 count2 handle s1 s2 found l2 in
    (rw (o2, o1, o), rw (h2, h1, h) (ground arith), rw (o2, o1, o, h2, h1, h) (ground arith))
