-- ===== src/Server.antt =====
-- src/threadserver/threadserver.cc, include/threadserver/threadserver.h: the registration of the
-- handlers and listeners that the configuration names.
-- The dynamic loader and the plugins are the parameter `Loader`. `opened` counts the references that
-- `dlopen` gave out and `dlclose` did not take back; an entry stands for one reference.
pub mod Guard
pub mod Start
pub mod Detach
pub mod Wiring
pub mod Loading
pub mod Lifetime
pub mod Unloading
use threadserver.Prelude.{
  ltb, ℕ, ◌+◌, Bool, true, false, Option, none, some, List, [], ◌∷◌, ◌++◌, Bytes, codes, find,
  substr, substr_from, same, is_some, is_empty, Result, ok, err, or_throw, if◌then◌else◌, ◌==◌, not,
}
use threadserver.Prelude.Map.{Map, lookup, insert}
use threadserver.Prelude.Exec.{Exec, pure, throw, lift, modify, ◌>>=◌, ◌>>◌}
use threadserver.Boost.{Boost}
use threadserver.Configuration.{Configuration, ConfigError, get, get_vector}
use threadserver.Network.{Network, NetworkError, parse_all}
use threadserver.Listener.{Listener, ListenError, new_listener, set_handler}

pub record Handler : Type 0 where
  pub name : Bytes
  pub worker_count : ℕ

pub record Loader : Type 0 where
  pub dlopen : Bytes → Option ℕ
  pub has_symbol : ℕ → Bytes → Bool
  -- the create function: a handler, or the text of its exception
  pub create : ℕ → (symbol name : Bytes) → (worker_count : ℕ) → Result Bytes Handler

pub data ServerError : Type 0 where
  handler_already_registered handler_not_found listener_already_registered : Bytes → ServerError
  invalid_handler_specification invalid_order : Bytes → ServerError
  cannot_load_handler : (name filename : Bytes) → ServerError
  cannot_load_create_function : (name filename symbol : Bytes) → ServerError
  cannot_create_handler : (name text : Bytes) → ServerError
  config_error : ConfigError → ServerError
  network_error : NetworkError → ServerError
  listen_error : ListenError → ServerError

pub record Server : Type 0 where
  pub handlers : Map Handler
  pub handler_handles : List ℕ
  pub opened : List ℕ
  pub listeners : Map Listener

abbrev pub Action : Type 0
Action = Exec Server ServerError (Unit {0})

-- `std::set::insert`; the set is in the order of the handles, which are pointers.
unfoldable pub insert_handle : ℕ → List ℕ → List ℕ
insert_handle h [] = h ∷ []
insert_handle h (k ∷ ks) =
    if ltb h k then h ∷ k ∷ ks else if k == h then k ∷ ks else k ∷ insert_handle h ks

-- One reference less.
unfoldable pub close : ℕ → List ℕ → List ℕ
close h [] = []
close h (k ∷ ks) = if k == h then ks else k ∷ close h ks

abbrev pub inserted : Map Handler × Bool → ServerError → Action
inserted (handlers, done) e s =
    if done then (ok tt, record s { handlers = handlers }) else (err e, s)

-- `registerHandler(Handler_t *)`
unfoldable pub register_handler : Handler → Action
register_handler handler s =
    inserted (insert handler.name handler s.handlers) (handler_already_registered handler.name) s

abbrev pub created : Result Bytes Handler → ℕ → Bytes → Action
created (err text) handle name = do
  modify (λ s. record s { opened = close handle s.opened })
  throw (cannot_create_handler name text)
created (ok handler) handle name = do
  register_handler handler
  modify (λ s. record s { handler_handles = insert_handle handle s.handler_handles })

-- `registerHandler(name, filename, symbol, workerCount)`, once the shared object is open.
unfoldable pub use_handle : Loader → ℕ → (name filename symbol : Bytes) → ℕ → Action
use_handle loader handle name filename symbol worker_count = do
  modify (λ s. record s { opened = handle ∷ s.opened })
  if not (loader.has_symbol handle symbol)
      then (do
        modify (λ s. record s { opened = close handle s.opened })
        throw (cannot_load_create_function name filename symbol))
      else created (loader.create handle symbol name worker_count) handle name

unfoldable pub load_handler : Loader → (name filename symbol : Bytes) → ℕ → Action
load_handler loader name filename symbol worker_count = elim (loader.dlopen filename) [
  | none ↦ throw (cannot_load_handler name filename)
  | some handle ↦ use_handle loader handle name filename symbol worker_count
]

-- `registerListener`; the pointer to the handler is set through the map's entry.
abbrev pub listed : Map Listener × Bool → ServerError → Action
listed (listeners, done) e s =
    if done then (ok tt, record s { listeners = listeners }) else (err e, s)

unfoldable pub register_listener : Listener → Action
unfolding set_handler
register_listener listener s = elim (lookup listener.handler_name s.handlers) [
  | none ↦ (err (handler_not_found listener.handler_name), s)
  | some handler ↦
      listed (insert listener.address (set_handler listener listener.handler_name) s.listeners)
        (listener_already_registered listener.address) s
]

abbrev pub config : {A : Type 0} → Result ConfigError A → Exec Server ServerError A
config (ok a) s = (ok a, s)
config (err e) s = (err (config_error e), s)

abbrev pub network : {A : Type 0} → Result NetworkError A → Exec Server ServerError A
network (ok a) s = (ok a, s)
network (err e) s = (err (network_error e), s)

abbrev pub listening : {A : Type 0} → Result ListenError A → Exec Server ServerError A
listening (ok a) s = (ok a, s)
listening (err e) s = (err (listen_error e), s)

-- `Order`: does "allow" stand first?
unfoldable pub parse_order : Bytes → Result ServerError Bool
parse_order order =
    if same order (codes "allow,deny")
    then ok true
    else if same order (codes "deny,allow")
    then ok false
    else err (invalid_order order)

module _ (b : Boost) (loader : Loader) (can_bind : Bytes → ℕ → Bool) (c : Configuration) where
  -- One round of the loop of `registerHandlers`.
  unfoldable pub register_named_handler : Bytes → Action
  register_named_handler name = do
    handler ← config (get some (name ++ codes ".Handler") c.variables)
    at ← lift (or_throw (find b':' handler) (invalid_handler_specification handler))
    worker_count ← config (get b.cast_size (name ++ codes ".WorkerCount") c.variables)
    load_handler loader name (substr handler 0 at) (substr_from handler (at + 1)) worker_count

  unfoldable pub register_handlers : List Bytes → Action
  register_handlers [] = pure tt
  register_handlers (name ∷ names) = register_named_handler name >> register_handlers names

  -- One round of the loop of `registerListeners`.
  unfoldable pub register_named_listener : Bytes → Action
  register_named_listener name = do
    address ← config (get some (name ++ codes ".Address") c.variables)
    handler ← config (get some (name ++ codes ".Handler") c.variables)
    order ← config (get some (name ++ codes ".Order") c.variables)
    allow_first ← lift (parse_order order)
    allow ← config (get_vector some (name ++ codes ".Allow") c.variables)
    allowed ← network (parse_all b allow)
    deny ← config (get_vector some (name ++ codes ".Deny") c.variables)
    denied ← network (parse_all b deny)
    listener ← listening (new_listener b can_bind address handler allow_first allowed denied)
    register_listener listener

  unfoldable pub register_listeners : List Bytes → Action
  register_listeners [] = pure tt
  register_listeners (name ∷ names) = register_named_listener name >> register_listeners names

  -- What the constructor registers.
  unfoldable pub register : Action
  register = register_handlers c.handler_names >> register_listeners c.listener_names

-- The part of the destructor that gives back the handles: one `dlclose` for each entry of the set.
unfoldable pub close_all : List ℕ → List ℕ → List ℕ
close_all [] opened = opened
close_all (h ∷ handles) opened = close_all handles (close h opened)
