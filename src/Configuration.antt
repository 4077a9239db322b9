-- ===== src/Configuration.antt =====
-- src/threadserver/configuration.cc and include/threadserver/configuration.h: the options, and the
-- variables of the configuration file. `boost::program_options` is a parameter: it turns the command
-- line into options, reads a file into items, and stores a file's options over those that are there.
pub mod Variables
use threadserver.Prelude.{
  ℕ, Bool, true, false, Option, none, some, List, [], ◌∷◌, ◌||◌, Bytes, codes, same, is_empty,
  Result, ok, err, ◌>>=◌, or_throw, if◌then◌else◌,
}
use threadserver.Prelude.Map.{Map, lookup, push_at}

abbrev pub Variables : Type 0
Variables = Map (List Bytes)

-- `no_value` is `idata->second[0]` of an empty vector.
pub data ConfigError : Type 0 where
  variable_not_found : Bytes → ConfigError
  no_value : Bytes → ConfigError
  bad_cast : (key value : Bytes) → ConfigError
  invalid_literal : (value key : Bytes) → ConfigError

module _ {T : Type 0} (cast : Bytes → Option T) where
  cast_value : Bytes → List Bytes → Result ConfigError T
  cast_value key [] = err (no_value key)
  cast_value key (v ∷ vs) = or_throw (cast v) (bad_cast key v)

  -- `get(key)` and `get(key, defaultValue)`
  unfoldable pub get : Bytes → Variables → Result ConfigError T
  unfolding cast_value
  get key vars = elim (lookup key vars) [
    | none ↦ err (variable_not_found key)
    | some values ↦ cast_value key values
  ]

  unfoldable pub get_default : Bytes → T → Variables → Result ConfigError T
  unfolding cast_value
  get_default key default_value vars = elim (lookup key vars) [
    | none ↦ ok default_value
    | some values ↦ cast_value key values
  ]

  unfoldable pub cast_values : Bytes → List Bytes → Result ConfigError (List T)
  cast_values key [] = ok []
  cast_values key (v ∷ vs) = do
    t ← or_throw (cast v) (bad_cast key v)
    ts ← cast_values key vs
    ok (t ∷ ts)

  unfoldable pub get_vector : Bytes → Variables → Result ConfigError (List T)
  unfolding cast_values
  get_vector key vars = elim (lookup key vars) [
    | none ↦ ok []
    | some values ↦ cast_values key values
  ]

-- The tests that both overloads of `getBool` make.
unfoldable pub literal : Bytes → Bytes → Result ConfigError Bool
literal key value =
    if same value (codes "true") || same value (codes "on") || same value (codes "1")
    then ok true
    else if same value (codes "false") || same value (codes "off") || same value (codes "0")
    then ok false
    else err (invalid_literal value key)

-- A cast to a text keeps it.
unfoldable pub get_bool : Bytes → Variables → Result ConfigError Bool
unfolding get literal
get_bool key vars = do value ← get some key vars; literal key value

unfoldable pub get_bool_default : Bytes → Bool → Variables → Result ConfigError Bool
unfolding get_default literal
get_bool_default key default_value vars = do
  value ← get_default some key (if default_value then codes "1" else codes "0") vars
  literal key value

-- The loop over the items of the file: `data[i->string_key].push_back(i->value[0])`.
unfoldable pub read_items : List (Bytes × Bytes) → Variables → Variables
read_items [] vars = vars
read_items ((key, value) ∷ items) vars = read_items items (push_at key value vars)

-- What `program_options` stores into. The log settings are left out.
pub record Options : Type 0 where
  pub help : Bool
  pub config_file : Bytes
  pub nodetach : Bool
  pub handler_names : List Bytes
  pub listener_names : List Bytes
  pub pid_file : Bytes

pub record Configuration : Type 0 where
  pub nodetach : Bool
  pub handler_names : List Bytes
  pub listener_names : List Bytes
  pub pid_file : Bytes
  pub variables : Variables

-- The constructor ends the process with code 1, throws, or gives a configuration.
pub data Start {ℓ} (A : Type ℓ) : Type ℓ where
  started : A → Start A
  exits : ℕ → Start A
  throws : Bytes → Start A

-- A configuration file: it cannot be opened; its items cannot be read (which is not caught); or it
-- has items, and its options are stored or refused.
pub data ConfigFile : Type 0 where
  unreadable : ConfigFile
  malformed : Bytes → ConfigFile
  has_items : List (Bytes × Bytes) → Option Options → ConfigFile

-- The checks at the end of the constructor.
unfoldable pub check_names : Options → Variables → Start Configuration
check_names options vars =
    if is_empty options.handler_names
    then exits 1
    else if is_empty options.listener_names
    then exits 1
    else started (record {
      nodetach = options.nodetach;
      handler_names = options.handler_names;
      listener_names = options.listener_names;
      pid_file = options.pid_file;
      variables = vars;
    })

unfoldable pub read_file : ConfigFile → Start Configuration
read_file unreadable = exits 1
read_file (malformed what) = throws what
read_file (has_items items none) = exits 1
read_file (has_items items (some options)) = check_names options (read_items items [])

unfoldable pub configure :
    (command_line : Option Options) → (open_file : Options → ConfigFile) → Start Configuration
configure none open_file = exits 1
configure (some options) open_file =
    if options.help
    then exits 1
    else if is_empty options.config_file
    then check_names options []
    else read_file (open_file options)
