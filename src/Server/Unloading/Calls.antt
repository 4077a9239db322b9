-- ===== src/Server/Unloading/Calls.antt =====
-- What the calls of a server process leave, one after another.
use mathlib.Core.List.{append_assoc, append-nil}
use threadserver.Prelude.{
  ◌≡◌, refl, sym, ◌∙◌, [], List, ◌∷◌, ◌++◌, map, Result, ok, err, ◌>>=◌, Bool-cases, inl, inr,
}
use threadserver.Prelude.Map.{Map}
use threadserver.Listener.{Listener}
use threadserver.Http.Message.{Exception}
use threadserver.Server.Lifetime.{
  Call, create_workers_of, Running, Undefined, perform, run_listeners, ran, has,
}
use threadserver.Server.Lifetime.Through.{names, Through}
use threadserver.Server.Unloading.{performed}

pub performed-append :
    (calls more : List Call) (s : Running)
    → performed (calls ++ more) s ≡ (performed calls s >>= performed more)
unfolding performed
performed-append [] more s = refl
performed-append (call ∷ calls) more s = after (perform call s) (performed-append calls more)
  where
    after :
        (r : Result Undefined Running)
        → ((t : Running) → performed (calls ++ more) t ≡ (performed calls t >>= performed more))
        → (r >>= performed (calls ++ more)) ≡ ((r >>= performed calls) >>= performed more)
    after (ok t) h = h t
    after (err e) h = refl

pub Through-performed :
    (ls : Map Listener) (Q : Running → Type 0) (calls : List Call) (s : Running)
    → Through ls Q calls s
    → (s' : Running) × (performed calls s ≡ ok s') × Q s'
unfolding performed
Through-performed ls Q [] s (serving, q) = (s, refl, q)
Through-performed ls Q (call ∷ calls) s (serving, (t, e, rest)) =
    let (s', e', q) = Through-performed ls Q calls t rest in (s', rw e e', q)

-- Opening listeners leaves the workers as they are.
pub run-working :
    (opens : Listener → Result Exception (Unit {0})) (ls : Map Listener) (s s' : Running)
    → performed (run_listeners opens ls).0 s ≡ ok s'
    → s'.working ≡ s.working
unfolding performed perform
run-working opens [] s s' e = cc
run-working opens ((address, l) ∷ ls) s s' e = opened (opens l) (λ t. run-working opens ls t s') e
  where
    opened :
        (r : Result Exception (Unit {0}))
        → ((t : Running) → performed (run_listeners opens ls).0 t ≡ ok s' → s'.working ≡ t.working)
        → performed (ran address r (run_listeners opens ls)).0 s ≡ ok s'
        → s'.working ≡ s.working
    opened (ok done) rest e' = rest (record s { listening = s.listening ++ address ∷ [] }) e'
    opened (err x) rest e' = cc

pub create-working :
    {V : Type 0} (hs : Map V) (s s' : Running)
    → performed (map (λ entry. create_workers_of entry.0) hs) s ≡ ok s'
    → s'.working ≡ s.working ++ names hs
unfolding performed perform
create-working [] s s' e = cc (append-nil s.working)
create-working ((name, v) ∷ hs) s s' e = elim (Bool-cases (has name s.handlers)) [
  | inl there ↦
      create-working hs (record s { working = s.working ++ name ∷ [] }) s' (rw there at e)
      ∙ append_assoc s.working (name ∷ []) (names hs)
  | inr gone ↦ cc (rw gone at e)
]

pub performed-parts :
    (calls more : List Call) (s s' : Running)
    → performed (calls ++ more) s ≡ ok s'
    → (t : Running) × (performed calls s ≡ ok t) × (performed more t ≡ ok s')
performed-parts calls more s s' e =
    parts (performed calls s) refl (sym (performed-append calls more s) ∙ e)
  where
    parts :
        (r : Result Undefined Running)
        → performed calls s ≡ r
        → (r >>= performed more) ≡ ok s'
        → (t : Running) × (performed calls s ≡ ok t) × (performed more t ≡ ok s')
    parts (ok t) p q = (t, p, q)
    parts (err x) p q = cc
