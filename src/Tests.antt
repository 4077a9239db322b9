-- ===== src/Tests.antt =====
-- The theorems applied at concrete inputs: the helpers that the examples share.
mod Orders
mod Ends
mod Answers
mod Starts
mod Dummies
mod Messages
pub mod Networks
pub mod Listeners
pub mod Forms
pub mod Requests
pub mod Values
pub mod Processes
pub mod Trees
pub mod Lifetimes
pub mod Jobs
pub mod Threads
pub mod Refusals
pub mod Pools
pub mod Frpc
pub mod Modules
use threadserver.Prelude.{
  ℕ, ◌≡◌, ◌≢◌, refl, ap, ◌∙◌, Bool, true, false, List, [], ◌∷◌, ◌++◌, ◌&&◌, not, Bytes, Lacks, All,
  ◌==◌, if◌then◌else◌, is_empty, arith,
}
use threadserver.Http.Params.Stored.{joined, Tokenizer}

unfoldable pub lacks : ℕ → Bytes → Bool
lacks c [] = true
lacks c (x ∷ s) = not (x == c) && lacks c s

pub lacks-Lacks : (c : ℕ) (s : Bytes) → lacks c s ≡ true → Lacks c s
unfolding lacks
lacks-Lacks c [] e = tt
lacks-Lacks c (x ∷ s) e = (ground arith, lacks-Lacks c s (ground arith))

onto : ℕ → List Bytes → List Bytes
onto c [] = (c ∷ []) ∷ []
onto c (t ∷ ts) = (c ∷ t) ∷ ts

-- A text taken apart at each separator.
unfoldable pub pieces : ℕ → Bytes → List Bytes
unfolding onto
pieces separator [] = [] ∷ []
pieces separator (c ∷ s) =
    let rest = pieces separator s in if c == separator then [] ∷ rest else onto c rest

unfoldable pub at_ampersands : Bytes → List Bytes
unfolding pieces
at_ampersands s = if is_empty s then [] else pieces b'&' s

pieces_lem : (c : ℕ) (t : Bytes) → Lacks c t → pieces c t ≡ t ∷ []
unfolding pieces onto
pieces_lem c [] h = refl
pieces_lem c (x ∷ t) h = rw (pieces_lem c t h.1) (ground arith)

pieces-append : (c : ℕ) (t s : Bytes) → Lacks c t → pieces c (t ++ (c ∷ s)) ≡ t ∷ pieces c s
unfolding pieces onto
pieces-append c [] s h = ground arith
pieces-append c (x ∷ t) s h = rw (pieces-append c t s h.1) (ground arith)

pieces-joined :
    (t : Bytes) (ts : List Bytes)
    → All (λ t. (t ≢ []) × Lacks b'&' t) (t ∷ ts)
    → pieces b'&' (joined (t ∷ ts)) ≡ t ∷ ts
pieces-joined t [] h = pieces_lem b'&' t h.0.1
pieces-joined t (u ∷ ts) h =
    pieces-append b'&' t (joined (u ∷ ts)) h.0.1 ∙ ap (λ r. t ∷ r) (pieces-joined u ts h.1)

is_empty-joined : (t : Bytes) (ts : List Bytes) → t ≢ [] → is_empty (joined (t ∷ ts)) ≡ false
is_empty-joined [] ts h = absurd (h refl)
is_empty-joined (c ∷ t) [] h = refl
is_empty-joined (c ∷ t) (u ∷ ts) h = refl

pub at_ampersands-Tokenizer : Tokenizer at_ampersands
unfolding at_ampersands
at_ampersands-Tokenizer [] h = refl
at_ampersands-Tokenizer (t ∷ ts) h =
    rw (at_ampersands, is_empty-joined t ts h.0.0) (pieces-joined t ts h)
