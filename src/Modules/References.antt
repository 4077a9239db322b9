-- ===== src/Modules/References.antt =====
-- What the constructors and destructors of the handlers do to the references to their modules.
use threadserver.Prelude.{
  ℕ, ◌≡◌, refl, ap, ◌+◌, ◌++◌, codes, find, substr, substr_from, inl, inr, Option, none, some, List,
  ◌∷◌, Bytes, Bool-cases, Option-cases, Result, ok, err,
}
use threadserver.Configuration.{Variables, ConfigError, get}
use threadserver.Http.Message.{Exception, what}
use threadserver.Server.Loading.{close-cons}
use threadserver.Modules.{
  ModuleLoader, ModuleError, config_error, invalid_module_specification, cannot_load_module,
  cannot_load_create_function, cannot_create_module, thrown, Members, created, create_from, reset,
  open_module, load_module, destroy, load_specified, from_setting, construct_body, behind,
  constructor, new_http_handler, new_frpc_handler,
}
use threadserver.Modules.Settings.{Casts, http_settings, frpc_settings}

module _ {M : Type 0} (loader : ModuleLoader M) where
  open loader use {dlopen, has_symbol, create}

  -- The members of an object under construction, before `loadModule`.
  abbrev pub fresh : List ℕ → Members M
  fresh opened = record { module_handle = none; loaded = none; opened = opened }

  -- What a constructor comes to: it throws, and holds nothing; or it holds a module, and one reference
  -- more than before to the shared object of its handle.
  pub data Constructed {A : Type 0} (opened : List ℕ)
      : Result ModuleError A → Members M → Type 0 where
    failed : (e : ModuleError) → Constructed opened (err e) (fresh opened)
    built :
        (a : A) (handle : ℕ) (m : M)
        → Constructed opened
            (ok a)
            (record { module_handle = some handle; loaded = some m; opened = handle ∷ opened })

  -- `loadModule` alone leaves the reference with the guard also when it throws.
  data Held (opened : List ℕ) : Result ModuleError (Unit {0}) → Members M → Type 0 where
    nothing : (e : ModuleError) → Held opened (err e) (fresh opened)
    unused :
        (e : ModuleError) (handle : ℕ)
        → Held opened
            (err e)
            (record { module_handle = some handle; loaded = none; opened = handle ∷ opened })
    used :
        (handle : ℕ) (m : M)
        → Held opened
            (ok tt)
            (record { module_handle = some handle; loaded = some m; opened = handle ∷ opened })

  abbrev holding : ℕ → List ℕ → Members M
  holding handle opened = record {
    module_handle = some handle;
    loaded = none;
    opened = handle ∷ opened;
  }

  abbrev HeldBy : List ℕ → Result ModuleError (Unit {0}) × Members M → Type 0
  HeldBy opened (r, members) = Held opened r members

  created-Held :
      (handle : ℕ) (filename : Bytes) (result : Result Exception M) (opened : List ℕ)
      → HeldBy opened (created loader filename result (holding handle opened))
  created-Held handle filename (ok m) opened = used handle m
  created-Held handle filename (err e) opened = elim (Option-cases (what e)) [
    | inl none_found ↦ rw (none_found, created) (unused (thrown e) handle)
    | inr (text, found) ↦ rw (found, created) (unused (cannot_create_module filename text) handle)
  ]

  create_from-Held :
      (handle : ℕ) (filename symbol : Bytes) (opened : List ℕ)
      → HeldBy opened (create_from loader filename symbol (some handle) (holding handle opened))
  create_from-Held handle filename symbol opened = elim (Bool-cases (has_symbol handle symbol)) [
    | inl t ↦ rw t (created-Held handle filename (create handle symbol) opened)
    | inr f ↦ rw f (unused (cannot_load_create_function filename symbol) handle)
  ]

  load_module-Held :
      (filename symbol : Bytes) (opened : List ℕ)
      → HeldBy opened (load_module loader filename symbol (fresh opened))
  unfolding load_module open_module reset
  load_module-Held filename symbol opened = elim (Option-cases (dlopen filename)) [
    | inl none_found ↦
        rw (none_found, load_module, open_module) (nothing (cannot_load_module filename))
    | inr (handle, found) ↦
        rw (found, load_module, open_module) (create_from-Held handle filename symbol opened)
  ]

  specified-Held :
      (at : Option ℕ) (specification : Bytes) (opened : List ℕ)
      → HeldBy opened (load_specified loader specification at (fresh opened))
  specified-Held none specification opened = nothing (invalid_module_specification specification)
  specified-Held (some at) specification opened =
      load_module-Held (substr specification 0 at) (substr_from specification (at + 1)) opened

  construct_body-Held :
      (name : Bytes) (vars : Variables) (opened : List ℕ)
      → HeldBy opened (construct_body loader name vars (fresh opened))
  unfolding construct_body
  construct_body-Held name vars opened = found (get some (name ++ codes ".Module") vars)
    where
      found : (r : Result ConfigError Bytes) → HeldBy opened (from_setting loader r (fresh opened))
      found (ok specification) = specified-Held (find b':' specification) specification opened
      found (err e) = nothing (config_error e)

  abbrev pub ConstructedBy : {A : Type 0} → List ℕ → Result ModuleError A × Members M → Type 0
  ConstructedBy opened (r, members) = Constructed opened r members

  behind-Constructed :
      {A : Type 0} (a : A) (opened : List ℕ) (r : Result ModuleError (Unit {0}))
      (members : Members M)
      → Held opened r members
      → ConstructedBy opened (behind loader a (r, members))
  unfolding destroy reset
  behind-Constructed a opened _ _ (nothing e) = failed e
  behind-Constructed a opened _ _ (unused e handle) = rw (close-cons handle opened) (failed e)
  behind-Constructed a opened _ _ (used handle m) = built a handle m

  constructor-Constructed :
      {A : Type 0} (settings : Result ConfigError A) (name : Bytes) (vars : Variables)
      (opened : List ℕ)
      → ConstructedBy opened (constructor loader settings name vars (fresh opened))
  constructor-Constructed (err e) name vars opened = failed (config_error e)
  constructor-Constructed (ok a) name vars opened =
      let body = construct_body loader name vars (fresh opened) in
      behind-Constructed a opened body.0 body.1 (construct_body-Held name vars opened)

  -- The constructors of the HTTP and of the FRPC handler leave the references to shared objects as they
  -- were when they throw, wherever that is: a setting, the specification, the shared object, its
  -- function or the module that it makes. When they return, there is a module, and one reference more,
  -- to the object of its handle.
  pub new_handler-Constructed :
      (casts : Casts) (name : Bytes) (vars : Variables) (opened : List ℕ)
      → ConstructedBy opened (new_http_handler loader casts name vars (fresh opened))
        × ConstructedBy opened (new_frpc_handler loader casts name vars (fresh opened))
  unfolding new_http_handler new_frpc_handler
  new_handler-Constructed casts name vars opened = (
    constructor-Constructed (http_settings casts name vars) name vars opened,
    constructor-Constructed (frpc_settings casts name vars) name vars opened,
  )

  -- A handler that was constructed gives its reference back when it is destroyed, and holds no module:
  -- the members, and the references to shared objects, are as they were before the constructor.
  pub destroy-new_handler :
      (casts : Casts) (name : Bytes) (vars : Variables) (opened : List ℕ)
      → (destroy loader (new_http_handler loader casts name vars (fresh opened)).1 ≡ fresh opened)
        × (destroy loader (new_frpc_handler loader casts name vars (fresh opened)).1 ≡ fresh opened)
  unfolding destroy reset
  destroy-new_handler casts name vars opened =
      let (http, frpc) = new_handler-Constructed casts name vars opened in
      (given_back opened _ _ http, given_back opened _ _ frpc)
    where
      given_back :
          {A : Type 0} (opened : List ℕ) (r : Result ModuleError A) (members : Members M)
          → Constructed opened r members
          → destroy loader members ≡ fresh opened
      given_back opened _ _ (failed e) = refl
      given_back opened _ _ (built a handle m) = ap fresh (close-cons handle opened)
