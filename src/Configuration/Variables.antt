-- ===== src/Configuration/Variables.antt =====
-- What the variables of a configuration file answer.
use threadserver.Prelude.{
  ◌≡◌, ◌≢◌, refl, ap, ◌∙◌, Option, none, some, List, [], ◌∷◌, Bytes, same, is_empty, Result, ok,
  err, if◌then◌else◌, Bool-cases, inl, inr, arith,
}
use threadserver.Prelude.Map.{lookup, push_at, lookup-push, with_more, with_more-with_more}
use threadserver.Configuration.{
  Variables, ConfigError, variable_not_found, get, cast_values, get_vector, read_items, Options,
  Configuration, started, configure, check_names, ConfigFile, unreadable, malformed, has_items,
  read_file,
}

-- The values that a file has for a key, in their order.
abbrev pub values_of : Bytes → List (Bytes × Bytes) → List Bytes
values_of key [] = []
values_of key ((k, v) ∷ items) = if same k key then v ∷ values_of key items else values_of key items

lookup-read_items :
    (key : Bytes) (items : List (Bytes × Bytes)) (vars : Variables)
    → lookup key (read_items items vars) ≡ with_more (lookup key vars) (values_of key items)
unfolding read_items
lookup-read_items key [] vars = refl
lookup-read_items key ((k, v) ∷ items) vars = elim (Bool-cases (same k key)) [
  | inl e ↦ rw e (
      lookup-read_items key items (push_at k v vars)
      ∙ ap (λ (o : Option (List Bytes)). with_more o (values_of key items))
          (lookup-push key k v vars ∙ rw e)
      ∙ with_more-with_more (lookup key vars) v (values_of key items))
  | inr e ↦ rw e (
      lookup-read_items key items (push_at k v vars)
      ∙ ap (λ (o : Option (List Bytes)). with_more o (values_of key items))
          (lookup-push key k v vars ∙ rw e))
]

cast_values-some : (key : Bytes) (vs : List Bytes) → cast_values some key vs ≡ ok vs
unfolding cast_values
cast_values-some key [] = refl
cast_values-some key (v ∷ vs) = rw (cast_values-some key vs)

-- The first of a key's values, or the error of a missing variable.
abbrev pub first_or : Bytes → List Bytes → Result ConfigError Bytes
first_or key [] = err (variable_not_found key)
first_or key (v ∷ vs) = ok v

answers :
    (key : Bytes) (vars : Variables) (vs : List Bytes)
    → lookup key vars ≡ with_more none vs
    → (get_vector some key vars ≡ ok vs) × (get some key vars ≡ first_or key vs)
unfolding get_vector get
answers key vars [] e = (rw (e, get_vector), rw (e, get))
answers key vars (v ∷ vs) e = (rw (e, get_vector) (cast_values-some key (v ∷ vs)), rw (e, get))

-- After a file is read, the vector of a key has all the values that the file gives for it, in
-- their order, and its single value is the first of them; a key that the file lacks has the empty
-- vector, and asking for its single value is the error that names it.
pub get-read_items :
    (key : Bytes) (items : List (Bytes × Bytes))
    → (get_vector some key (read_items items []) ≡ ok (values_of key items))
      × (get some key (read_items items []) ≡ first_or key (values_of key items))
unfolding lookup
get-read_items key items =
    answers key (read_items items []) (values_of key items) (lookup-read_items key items [])

check_names-started :
    (options : Options) (vars : Variables) (c : Configuration)
    → check_names options vars ≡ started c
    → (c.handler_names ≢ []) × (c.listener_names ≢ [])
unfolding check_names
check_names-started options vars c h = ground arith

read_file-started :
    (file : ConfigFile) (c : Configuration)
    → read_file file ≡ started c
    → (c.handler_names ≢ []) × (c.listener_names ≢ [])
unfolding read_file
read_file-started unreadable c h = cc
read_file-started (malformed what) c h = cc
read_file-started (has_items items none) c h = cc
read_file-started (has_items items (some options)) c h =
    check_names-started options (read_items items []) c h

-- A process that gets past the constructor has handlers and listeners to start.
configure-started :
    (command_line : Option Options) (open_file : Options → ConfigFile) (c : Configuration)
    → configure command_line open_file ≡ started c
    → (c.handler_names ≢ []) × (c.listener_names ≢ [])
unfolding configure
configure-started none open_file c h = cc
configure-started (some options) open_file c h = elim (Bool-cases options.help) [
  | inl e ↦ cc (simp e at h)
  | inr e ↦ elim (Bool-cases (is_empty options.config_file)) [
    | inl f ↦ check_names-started options [] c (simp (e, f) at h)
    | inr f ↦ read_file-started (open_file options) c (simp (e, f) at h)
  ]
]
