-- ===== src/Http/Params/Stored.antt =====
-- What `Parameters_t::parse` leaves to be asked for, and what the getters answer.
use threadserver.Prelude.{
  ℕ, ◌+◌, ◌^◌, ◌<◌, ◌≡◌, ◌≢◌, refl, ap, ◌∙◌, inl, inr, Option, none, some, List, [], ◌∷◌, ◌++◌, map,
  arith, Bytes, Lacks, All, All-append, length, find, same, substr, substr_from, or_else,
  find-append, take-length_append, drop-suc_length_append, ok, err, if◌then◌else◌, Option-cases,
  Bool-cases,
}
use threadserver.Prelude.Map.{lookup, push_at, lookup-push, with_more, with_more-with_more}
use threadserver.Http.Params.{
  Data, no_front, unescape, store, store_all, parse, get_first, cast_all, get,
}
use threadserver.Http.Params.Unescape.{Style, Fits, encode, plain, unescape-encode}

-- The key and the value of one token.
key_of : Bytes → Bytes
key_of t = elim (find b'=' t) [ none ↦ unescape t | some at ↦ unescape (substr t 0 at) ]

value_of : Bytes → Bytes
value_of t = elim (find b'=' t) [ none ↦ [] | some at ↦ unescape (substr_from t (at + 1)) ]

store_lem : (t : Bytes) (m : Data) → store t m ≡ push_at (key_of t) (value_of t) m
unfolding store push_at key_of value_of
store_lem t m = elim (Option-cases (find b'=' t)) [
  | inl e ↦ rw (e, store, key_of, value_of)
  | inr (at, e) ↦ rw (e, store, key_of, value_of)
]

-- The values of a key in a list of tokens, in their order.
values : Bytes → List Bytes → List Bytes
values name [] = []
values name (t ∷ ts) = if same (key_of t) name then value_of t ∷ values name ts else values name ts

lookup-store :
    (name t : Bytes) (m : Data)
    → lookup name (store t m) ≡ (
        if same (key_of t) name
        then some (or_else (lookup name m) [] ++ value_of t ∷ [])
        else lookup name m)
lookup-store name t m =
    ap (lookup name) (store_lem t m) ∙ lookup-push name (key_of t) (value_of t) m

lookup-store_all :
    (name : Bytes) (ts : List Bytes) (m : Data)
    → lookup name (store_all ts m) ≡ with_more (lookup name m) (values name ts)
unfolding store_all values
lookup-store_all name [] m = refl
lookup-store_all name (t ∷ ts) m = elim (Bool-cases (same (key_of t) name)) [
  | inl e ↦ rw e (
      lookup-store_all name ts (store t m)
      ∙ ap (λ (o : Option (List Bytes)). with_more o (values name ts))
          (lookup-store name t m ∙ rw e)
      ∙ with_more-with_more (lookup name m) (value_of t) (values name ts))
  | inr e ↦ rw e (
      lookup-store_all name ts (store t m)
      ∙ ap (λ (o : Option (List Bytes)). with_more o (values name ts))
          (lookup-store name t m ∙ rw e))
]

-- A tokenizer over "&": texts that are not empty and lack the separator are split at it.
abbrev pub joined : List Bytes → Bytes
joined [] = []
joined (t ∷ []) = t
joined (t ∷ u ∷ ts) = t ++ (b'&' ∷ joined (u ∷ ts))

abbrev pub Tokenizer : (Bytes → List Bytes) → Type 0
Tokenizer tokens =
    (ts : List Bytes) → All (λ t. (t ≢ []) × Lacks b'&' t) ts → tokens (joined ts) ≡ ts

-- A form: pairs of a key and a value, each with the way in which its bytes are written.
abbrev pub Written : Type 0
Written = List (Style × ℕ)

abbrev pub token : Written × Written → Bytes
token (k, v) = encode k ++ (b'=' ∷ encode v)

abbrev pub Sendable : Written × Written → Type 0
Sendable (k, v) =
    All Fits k
    × All Fits v
    × Lacks b'=' (encode k)
    × Lacks b'&' (encode k)
    × Lacks b'&' (encode v)
    × (length (encode k) < 2 ^ 64)
    × (length (encode v) < 2 ^ 64)

-- The values that a form has for a name, in their order.
abbrev pub form_values : Bytes → List (Written × Written) → List Bytes
form_values name [] = []
form_values name ((k, v) ∷ form) =
    if same (plain k) name then plain v ∷ form_values name form else form_values name form

key_of-token : (k v : Written) → Sendable (k, v) → key_of (token (k, v)) ≡ plain k
unfolding key_of
key_of-token k v s =
    rw
      (
        find-append b'=' (encode k) (encode v) s.2,
        key_of,
        take-length_append (encode k) (b'=' ∷ encode v),
      )
      (unescape-encode k s.0 s.5)

value_of-token : (k v : Written) → Sendable (k, v) → value_of (token (k, v)) ≡ plain v
unfolding value_of
value_of-token k v s =
    rw
      (
        find-append b'=' (encode k) (encode v) s.2,
        value_of,
        drop-suc_length_append (encode k) b'=' (encode v),
      )
      (unescape-encode v s.1 s.6)

values-token :
    (name : Bytes) (form : List (Written × Written))
    → All Sendable form
    → values name (map token form) ≡ form_values name form
unfolding values
values-token name [] h = refl
values-token name ((k, v) ∷ form) (s, h) =
    rw (key_of-token k v s, value_of-token k v s, values-token name form h)

append-ne-nil : (a b : Bytes) (c : ℕ) → a ++ (c ∷ b) ≢ []
append-ne-nil [] b c e = cc
append-ne-nil (x ∷ a) b c e = cc

token-Part :
    (form : List (Written × Written))
    → All Sendable form
    → All (λ t. (t ≢ []) × Lacks b'&' t) (map token form)
token-Part [] h = tt
token-Part ((k, v) ∷ form) (s, h) = (
  (
    append-ne-nil (encode k) (encode v) b'=',
    All-append (λ x. x ≢ b'&') (encode k) (b'=' ∷ encode v) s.3 (omega arith, s.4),
  ),
  token-Part form h,
)

cast_all-some : (name : Bytes) (vs : List Bytes) → cast_all some name vs ≡ ok vs
unfolding cast_all
cast_all-some name [] = refl
cast_all-some name (v ∷ vs) = rw (cast_all-some name vs)

pub get-with_more :
    (name : Bytes) (m : Data) (vs : List Bytes)
    → lookup name m ≡ with_more none vs
    → get some name m ≡ ok vs
unfolding get
get-with_more name m [] e = rw (e, get)
get-with_more name m (v ∷ vs) e = rw (e, get) (cast_all-some name (v ∷ vs))

-- A parsed form puts its values behind those that a name has already.
pub lookup-parse :
    (tokens : Bytes → List Bytes) (form : List (Written × Written)) (name : Bytes) (m : Data)
    → Tokenizer tokens
    → All Sendable form
    → lookup name (parse tokens (joined (map token form)) m)
      ≡ with_more (lookup name m) (form_values name form)
unfolding parse
lookup-parse tokens form name m splits h = rw (splits (map token form) (token-Part form h)) (
    lookup-store_all name (map token form) m
    ∙ ap (with_more (lookup name m)) (values-token name form h))

-- With a tokenizer that splits at "&", and a form whose names and values are written with no "&",
-- whose names are written with no "=", and each with less than 2 ^ 64 bytes: the values of a name
-- in the parsed form are the values that the form was sent with under that name, decoded and in
-- their order.
pub get-parse :
    (tokens : Bytes → List Bytes) (form : List (Written × Written)) (name : Bytes)
    → Tokenizer tokens
    → All Sendable form
    → get some name (parse tokens (joined (map token form)) []) ≡ ok (form_values name form)
unfolding parse lookup
get-parse tokens form name splits h =
    get-with_more name (parse tokens (joined (map token form)) []) (form_values name form)
      (lookup-parse tokens form name [] splits h)

get_first-with_more {ℓ} :
    {T : Type ℓ} (cast : Bytes → Option T) (name n : Bytes) (m : Data) (vs : List Bytes)
    → lookup name m ≡ with_more none vs
    → get_first cast name m ≢ err (no_front n)
unfolding get_first
get_first-with_more cast name n m [] e h = ground arith
get_first-with_more cast name n m (v ∷ vs) e h = ground arith

-- Whatever text is parsed and however it is split, asking for the first value of a name never takes
-- the front of an empty list.
pub get_first-parse {ℓ} :
    {T : Type ℓ} (cast : Bytes → Option T) (tokens : Bytes → List Bytes) (params name n : Bytes)
    → get_first cast name (parse tokens params []) ≢ err (no_front n)
unfolding parse lookup
get_first-parse cast tokens params name n =
    get_first-with_more cast name n (store_all (tokens params) []) (values name (tokens params))
      (lookup-store_all name (tokens params) [])
