-- ===== src/Modules.antt =====
-- The modules of the handlers: `DlHandleGuard_t`, `loadModule` and the constructors and destructors of
-- `CppHttpHandler_t` and `CppFrpcHandler_t`.
pub mod Settings
pub mod References
use threadserver.Prelude.{
  ℕ, ◌+◌, ◌*◌, Bool, true, false, ◌||◌, not, Option, none, some, List, [], ◌∷◌, ◌++◌, Bytes, codes,
  find, same, substr, substr_from, Result, ok, err, or_throw, if◌then◌else◌,
}
use threadserver.Prelude.Int.{ℤ, pos}
use threadserver.Prelude.Exec.{Exec, pure, throw, lift, try_catch, modify, ◌>>=◌, ◌>>◌}
use threadserver.Configuration.{Variables, ConfigError, get, get}
use threadserver.Http.Message.{Exception, what}
use threadserver.Server.{close}
use threadserver.Modules.Settings.{Casts, HttpSettings, FrpcSettings, http_settings, frpc_settings}

-- The dynamic loader, and the create function of a module: a module of type `M`, or what it throws.
pub record ModuleLoader (M : Type 0) : Type 0 where
  pub dlopen : Bytes → Option ℕ
  pub has_symbol : ℕ → Bytes → Bool
  pub create : ℕ → (symbol : Bytes) → Result Exception M

pub data ModuleError : Type 0 where
  config_error : ConfigError → ModuleError
  invalid_module_specification : Bytes → ModuleError
  cannot_load_module : (filename : Bytes) → ModuleError
  cannot_load_create_function : (filename symbol : Bytes) → ModuleError
  cannot_create_module : (filename text : Bytes) → ModuleError
  thrown : Exception → ModuleError

-- The members `moduleHandle` and `module` of a handler, and the references that the loader counts.
pub record Members (M : Type 0) : Type 0 where
  pub module_handle : Option ℕ
  pub loaded : Option M
  pub opened : List ℕ

module _ {M : Type 0} (loader : ModuleLoader M) where
  open loader use {dlopen, has_symbol, create}

  -- `DlHandleGuard_t::reset`: `dlclose` of the handle that is there.
  unfoldable pub reset : Option ℕ → Members M → Members M
  reset handle members = record members {
    module_handle = handle;
    opened = elim members.module_handle [
      | none ↦ members.opened
      | some old ↦ close old members.opened
    ];
  }

  -- `dlopen`, which counts a reference, and then `reset`
  unfoldable pub open_module : Bytes → Members M → Members M
  unfolding reset
  open_module filename members = elim (dlopen filename) [
    | none ↦ reset none members
    | some handle ↦ reset (some handle) (record members { opened = handle ∷ members.opened })
  ]

  abbrev pub created : Bytes → Result Exception M → Exec (Members M) ModuleError (Unit {0})
  created filename (ok handler_module) =
      modify (λ members. record members { loaded = some handler_module })
  created filename (err e) = elim (what e) [
    | some text ↦ throw (cannot_create_module filename text)
    | none ↦ throw (thrown e)
  ]

  abbrev pub create_from :
      (filename symbol : Bytes) → Option ℕ → Exec (Members M) ModuleError (Unit {0})
  create_from filename symbol none = throw (cannot_load_module filename)
  create_from filename symbol (some handle) =
      if not (has_symbol handle symbol)
      then throw (cannot_load_create_function filename symbol)
      else created filename (create handle symbol)

  -- `loadModule`
  unfoldable pub load_module : (filename symbol : Bytes) → Exec (Members M) ModuleError (Unit {0})
  unfolding open_module
  load_module filename symbol members =
      let members' = open_module filename members in
      create_from filename symbol members'.module_handle members'

  -- The members are destroyed in the reverse of their order: the module, and then the guard.
  unfoldable pub destroy : Members M → Members M
  unfolding reset
  destroy members = reset none (record members { loaded = none })

  abbrev pub load_specified :
      (specification : Bytes) → Option ℕ → Exec (Members M) ModuleError (Unit {0})
  load_specified specification none = throw (invalid_module_specification specification)
  load_specified specification (some at) =
      load_module (substr specification 0 at) (substr_from specification (at + 1))

  abbrev pub from_setting : Result ConfigError Bytes → Exec (Members M) ModuleError (Unit {0})
  from_setting (err e) = throw (config_error e)
  from_setting (ok specification) = load_specified specification (find b':' specification)

  -- The body of both constructors.
  unfoldable pub construct_body :
      (name : Bytes) → Variables → Exec (Members M) ModuleError (Unit {0})
  unfolding load_module
  construct_body name vars = from_setting (get some (name ++ codes ".Module") vars)

  -- What follows the body: when it throws, the members are destroyed.
  abbrev pub behind :
      {A : Type 0}
      → A
      → Result ModuleError (Unit {0}) × Members M
      → Result ModuleError A × Members M
  behind a (ok done, members) = (ok a, members)
  behind a (err e, members) = (err e, destroy members)

  -- The initialisers, which are given their settings, and the body.
  abbrev pub constructor :
      {A : Type 0}
      → Result ConfigError A
      → (name : Bytes) → Variables
      → Exec (Members M) ModuleError A
  constructor (err e) name vars members = (err (config_error e), members)
  constructor (ok settings) name vars members = behind settings (construct_body name vars members)

  -- `CppHttpHandler_t::CppHttpHandler_t` and `CppFrpcHandler_t::CppFrpcHandler_t`
  unfoldable pub new_http_handler :
      Casts → (name : Bytes) → Variables → Exec (Members M) ModuleError HttpSettings
  unfolding construct_body destroy
  new_http_handler casts name vars = constructor (http_settings casts name vars) name vars

  unfoldable pub new_frpc_handler :
      Casts → (name : Bytes) → Variables → Exec (Members M) ModuleError FrpcSettings
  unfolding construct_body destroy
  new_frpc_handler casts name vars = constructor (frpc_settings casts name vars) name vars
