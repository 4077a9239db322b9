-- ===== src/Server/Wiring.antt =====
-- Every registered listener is wired to a handler.
use mathlib.Core.Path.{subst}
use threadserver.Prelude.{
  not, ℕ, of_some, ◌≡◌, refl, sym, ap, ◌∙◌, Bool, true, false, some, List, [], ◌∷◌, Bytes, same,
  same_iff, is_some, inl, inr, Bool-cases, Option-cases, Result, ok, err, arith,
}
use threadserver.Prelude.Map.{Map, lookup, insert, lookup-insert}
use threadserver.Prelude.Exec.{Keeps, Keeps-bind, Keeps-lift, Keeps-if, modify, throw}
use threadserver.Boost.{Boost}
use threadserver.Configuration.{Configuration, ConfigError}
use threadserver.Network.{NetworkError}
use threadserver.Listener.{Listener, ListenError, set_handler}
use threadserver.Server.{
  Server, ServerError, Handler, Loader, register_handler, use_handle, load_handler,
  register_listener, config, network, listening, register_named_handler, register_handlers,
  register_named_listener, register_listeners, register, created, inserted, listed,
  cannot_load_handler, cannot_load_create_function, cannot_create_handler, close, insert_handle,
}

abbrev WiredIn : Map Handler → Bytes → Listener → Type 0
WiredIn handlers address l =
    (l.address ≡ address)
    × (l.handler ≡ some l.handler_name)
    × (is_some (lookup l.handler_name handlers) ≡ true)

-- Each entry stands under its own address, and its handler is the one that it names, and is there.
pub record IsWired (s : Server) : Type 0 where
  pub wired :
      (address : Bytes) (l : Listener)
      → lookup address s.listeners ≡ some l
      → WiredIn s.handlers address l

listed-IsWired :
    (p : Map Listener × Bool) (e : ServerError) (s : Server)
    → IsWired s
    → ((address : Bytes) (l : Listener)
        → lookup address p.0 ≡ some l
        → WiredIn s.handlers address l)
    → IsWired (listed p e s).1
listed-IsWired (listeners, true) e s h new = record { wired = new }
listed-IsWired (listeners, false) e s h new = h

insert-WiredIn :
    (handlers : Map Handler) (new : Listener) (listeners : Map Listener) (address : Bytes)
    (l : Listener)
    → WiredIn handlers new.address new
    → (lookup address listeners ≡ some l → WiredIn handlers address l)
    → lookup address (insert new.address new listeners).0 ≡ some l
    → WiredIn handlers address l
insert-WiredIn handlers new listeners address l wired old e =
    elim (Bool-cases (is_some (lookup new.address listeners))) [
      | inl there ↦ old (sym (lookup-insert new.address address new listeners ∙ rw there) ∙ e)
      | inr free ↦ elim (Bool-cases (same new.address address)) [
        | inl here ↦
            let is : new ≡ l =
              of_some
                (sym (lookup-insert new.address address new listeners ∙ rw (free, here)) ∙ e) in
            subst (WiredIn handlers address) is
              (subst (λ a. WiredIn handlers a new) ((same_iff new.address address).0 here) wired)
        | inr away ↦
            old (sym (lookup-insert new.address address new listeners ∙ rw (free, away)) ∙ e)
      ]
    ]

register_listener-IsWired : (l : Listener) → Keeps IsWired (register_listener l)
unfolding register_listener
register_listener-IsWired l = record {
  holds = λ s h. elim (Option-cases (lookup l.handler_name s.handlers)) [
    | inl e ↦ rw (e, register_listener) h
    | inr (handler, e) ↦
        rw (e, register_listener)
          (listed-IsWired (insert l.address (set_handler l l.handler_name) s.listeners) _ s h
            λ address l'.
              insert-WiredIn s.handlers (set_handler l l.handler_name) s.listeners address l'
                (refl, refl, ap is_some e) (h.wired address l'))
  ];
}

config-Keeps : {A : Type 0} (r : Result ConfigError A) → Keeps IsWired (config r)
config-Keeps (ok a) = record { holds = λ s h. h }
config-Keeps (err e) = record { holds = λ s h. h }

network-Keeps : {A : Type 0} (r : Result NetworkError A) → Keeps IsWired (network r)
network-Keeps (ok a) = record { holds = λ s h. h }
network-Keeps (err e) = record { holds = λ s h. h }

listening-Keeps : {A : Type 0} (r : Result ListenError A) → Keeps IsWired (listening r)
listening-Keeps (ok a) = record { holds = λ s h. h }
listening-Keeps (err e) = record { holds = λ s h. h }

-- Registering a handler hides none that is there.
insert-is_some :
    (k name : Bytes) (handler : Handler) (handlers : Map Handler)
    → is_some (lookup name handlers) ≡ true
    → is_some (lookup name (insert k handler handlers).0) ≡ true
insert-is_some k name handler handlers h = rw (lookup-insert k name handler handlers) (ground arith)

inserted-IsWired :
    (k : Bytes) (handler : Handler) (p : Map Handler × Bool) (e : ServerError) (s : Server)
    → insert k handler s.handlers ≡ p
    → IsWired s
    → IsWired (inserted p e s).1
inserted-IsWired k handler (handlers, true) e s is h = record {
  wired = λ address l found.
      let (at_address, set, there) = h.wired address l found in
      (
        at_address,
        set,
        subst (λ (p : Map Handler × Bool). is_some (lookup l.handler_name p.0) ≡ true) is
            (insert-is_some k l.handler_name handler s.handlers there),
      );
}
inserted-IsWired k handler (handlers, false) e s is h = h

register_handler-IsWired : (handler : Handler) → Keeps IsWired (register_handler handler)
unfolding register_handler
register_handler-IsWired handler = record {
  holds = λ s h.
      inserted-IsWired handler.name handler (insert handler.name handler s.handlers) _ s refl h;
}

handles-IsWired :
    (f : List ℕ → List ℕ)
    → Keeps {E = ServerError} IsWired
        (modify (λ s. record s { handler_handles = f s.handler_handles }))
handles-IsWired f = record { holds = λ s h. record { wired = h.wired } }

opened-IsWired :
    (f : List ℕ → List ℕ)
    → Keeps {E = ServerError} IsWired (modify (λ s. record s { opened = f s.opened }))
opened-IsWired f = record { holds = λ s h. record { wired = h.wired } }

throw-Keeps : {A : Type 0} (e : ServerError) → Keeps {A = A} IsWired (throw e)
throw-Keeps e = record { holds = λ s h. h }

created-IsWired :
    (r : Result Bytes Handler) (handle : ℕ) (name : Bytes) → Keeps IsWired (created r handle name)
created-IsWired (err text) handle name =
    Keeps-bind _ _ (opened-IsWired (close handle))
      λ _. throw-Keeps (cannot_create_handler name text)
created-IsWired (ok handler) handle name =
    Keeps-bind _ _ (register_handler-IsWired handler) λ _. handles-IsWired (insert_handle handle)

use_handle-IsWired :
    (loader : Loader) (handle : ℕ) (name filename symbol : Bytes) (worker_count : ℕ)
    → Keeps IsWired (use_handle loader handle name filename symbol worker_count)
unfolding use_handle
use_handle-IsWired loader handle name filename symbol worker_count =
    Keeps-bind _ _ (opened-IsWired (λ opened. handle ∷ opened)) λ _.
      Keeps-if (not (loader.has_symbol handle symbol)) _ _
        (Keeps-bind _ _ (opened-IsWired (close handle))
          λ _. throw-Keeps (cannot_load_create_function name filename symbol))
        (created-IsWired (loader.create handle symbol name worker_count) handle name)

load_handler-IsWired :
    (loader : Loader) (name filename symbol : Bytes) (worker_count : ℕ)
    → Keeps IsWired (load_handler loader name filename symbol worker_count)
unfolding load_handler
load_handler-IsWired loader name filename symbol worker_count =
    elim (Option-cases (loader.dlopen filename)) [
      | inl e ↦ rw (e, load_handler) (throw-Keeps (cannot_load_handler name filename))
      | inr (handle, e) ↦
          rw (e, load_handler) (use_handle-IsWired loader handle name filename symbol worker_count)
    ]

ruleset wired_rules = (
  Keeps-bind, Keeps-lift, config-Keeps, network-Keeps, listening-Keeps, register_listener-IsWired,
  load_handler-IsWired,
)

module _ (b : Boost) (loader : Loader) (can_bind : Bytes → ℕ → Bool) (c : Configuration) where
  register_named_listener-IsWired :
      (name : Bytes) → Keeps IsWired (register_named_listener b loader can_bind c name)
  unfolding register_named_listener
  register_named_listener-IsWired name = search wired_rules depth 30

  register_named_handler-IsWired :
      (name : Bytes) → Keeps IsWired (register_named_handler b loader can_bind c name)
  unfolding register_named_handler
  register_named_handler-IsWired name = search wired_rules depth 20

  register_handlers-IsWired :
      (names : List Bytes) → Keeps IsWired (register_handlers b loader can_bind c names)
  unfolding register_handlers
  register_handlers-IsWired [] = record { holds = λ s h. h }
  register_handlers-IsWired (name ∷ names) =
      Keeps-bind _ _ (register_named_handler-IsWired name) λ _. register_handlers-IsWired names

  register_listeners-IsWired :
      (names : List Bytes) → Keeps IsWired (register_listeners b loader can_bind c names)
  unfolding register_listeners
  register_listeners-IsWired [] = record { holds = λ s h. h }
  register_listeners-IsWired (name ∷ names) =
      Keeps-bind _ _ (register_named_listener-IsWired name) λ _. register_listeners-IsWired names

  -- The registration of all handlers and listeners of a configuration, from a server that has none,
  -- ends with every listener under its own address and wired to the registered handler that it
  -- names, also where it ends by an error.
  pub register-IsWired :
      (handles opened : List ℕ)
      → IsWired
          (register b loader can_bind c (record {
            handlers = [];
            handler_handles = handles;
            opened = opened;
            listeners = [];
          })).1
  unfolding register lookup
  register-IsWired handles opened =
      (Keeps-bind _ _ (register_handlers-IsWired c.handler_names)
          λ _. register_listeners-IsWired c.listener_names).holds
        _ (record { wired = λ address l e. cc })
