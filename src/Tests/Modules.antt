-- ===== src/Tests/Modules.antt =====
-- Examples of handlers that load their modules.
use threadserver.Prelude.{ℕ, true, none, some, [], ◌∷◌, codes, ok, if◌then◌else◌, same}
use threadserver.Configuration.{Variables, read_items}
use threadserver.Modules.{ModuleLoader, new_http_handler, new_frpc_handler}
use threadserver.Modules.Settings.{Casts}
use threadserver.Modules.References.{fresh, ConstructedBy, new_handler-Constructed}

-- A loader of one shared object, whose modules are numbers.
abbrev loader : ModuleLoader ℕ
loader = record {
  dlopen = λ filename. if same filename (codes "m.so") then some 7 else none;
  has_symbol = λ handle symbol. true;
  create = λ handle symbol. ok 5;
}

abbrev casts : Casts
casts = record { cast_time = λ s. none; cast_size = λ s. none; cast_int = λ s. none }

abbrev vars : Variables
vars = read_items ((codes "h.Module", codes "m.so:create") ∷ []) []

new_handler-Constructed_example :
    ConstructedBy loader
      (7 ∷ [])
      (new_http_handler loader casts (codes "h") vars (fresh loader (7 ∷ [])))
    × ConstructedBy loader
        (7 ∷ [])
        (new_frpc_handler loader casts (codes "h") vars (fresh loader (7 ∷ [])))
new_handler-Constructed_example = new_handler-Constructed loader casts (codes "h") vars (7 ∷ [])
