-- ===== src/Json/Escape.antt =====
-- `String_t::escape` against a reader of JSON strings.
use mathlib.Core.List.{append_assoc, append-nil}
use threadserver.Prelude.{
  ℕ, ◌≡◌, ◌≤◌, ◌↔◌, ◌⊎◌, refl, sym, ap, ◌∙◌, Option, none, some, [], ◌∷◌, ◌++◌, arith, Bytes, All,
  All-append, ◌≢◌, ◌==◌, ◌||◌, if◌then◌else◌,
}
use mathlib.Core.Option
use threadserver.Json.{escape_char, escape_loop, escape}

-- What an escape sequence stands for (RFC 8259, without `\u`).
unescape_char : ℕ → Option ℕ
unescape_char c =
    if c == b'n'
    then some 10
    else if c == b'r'
    then some 13
    else if c == b'b'
    then some 8
    else if c == b'f'
    then some 12
    else if c == b't'
    then some 9
    else if c == b'"' || c == 92 || c == b'/'
    then some c
    else none

-- The text of a string up to its closing quote, and what follows.
read_body : Bytes → Option (Bytes × Bytes)
read_body [] = none
read_body (c ∷ []) = if c == b'"' then some ([], []) else none
read_body (c ∷ d ∷ s) =
    let escaped = read_body s in
    let next = read_body (d ∷ s) in
    if c == b'"'
    then some ([], d ∷ s)
    else if c == 92
    then elim (unescape_char d) [ none ↦ none | some x ↦ Option.map (λ r. (x ∷ r.0, r.1)) escaped ]
    else Option.map (λ r. (c ∷ r.0, r.1)) next

pub read_string : Bytes → Option (Bytes × Bytes)
unfolding read_body unescape_char
read_string [] = none
read_string (c ∷ s) = if c == b'"' then read_body s else none

body : Bytes → Bytes
body [] = []
body (c ∷ s) = escape_char c ++ body s

escape_loop-body : (result s : Bytes) → escape_loop result s ≡ result ++ body s
unfolding escape_loop body
escape_loop-body result [] = sym (append-nil result)
escape_loop-body result (c ∷ s) =
    escape_loop-body (result ++ escape_char c) s ∙ append_assoc result (escape_char c) (body s)

-- One escaped character in front of what a string goes on with.
read_body-escape_char :
    (c d : ℕ) (s : Bytes)
    → read_body (escape_char c ++ (d ∷ s)) ≡ Option.map (λ r. (c ∷ r.0, r.1)) (read_body (d ∷ s))
unfolding read_body unescape_char escape_char
read_body-escape_char c d s = ground arith

append-cons : (a b : Bytes) (q : ℕ) → (d : ℕ) × (s : Bytes) × (a ++ (q ∷ b) ≡ d ∷ s)
append-cons [] b q = (q, b, refl)
append-cons (x ∷ a) b q = (x, a ++ (q ∷ b), refl)

read_body-body : (s rest : Bytes) → read_body (body s ++ (b'"' ∷ rest)) ≡ some (s, rest)
unfolding body
read_body-body [] [] = unfold read_body in refl
read_body-body [] (d ∷ rest) = unfold read_body in refl
read_body-body (c ∷ s) rest =
    let (d, more, e) = append-cons (body s) rest b'"' in
    ap read_body (append_assoc (escape_char c) (body s) (b'"' ∷ rest))
    ∙ ap (λ (t : Bytes). read_body (escape_char c ++ t)) e
    ∙ read_body-escape_char c d more
    ∙ ap (Option.map (λ (r : Bytes × Bytes). (c ∷ r.0, r.1)))
        (ap read_body (sym e) ∙ read_body-body s rest)

-- Whatever bytes a text has, a reader of JSON strings takes back exactly that text from its escaped
-- form, and stops right behind it: no text can end its string early or run on.
pub read_string-escape : (s rest : Bytes) → read_string (escape s ++ rest) ≡ some (s, rest)
unfolding read_string escape
read_string-escape s rest =
    ap (λ (t : Bytes). read_string ((t ++ b'"' ∷ []) ++ rest)) (escape_loop-body (b'"' ∷ []) s)
    ∙ ap read_body (append_assoc (body s) (b'"' ∷ []) rest)
    ∙ read_body-body s rest

pub escape-quote : (s : Bytes) → (t : Bytes) × (escape s ≡ b'"' ∷ t)
unfolding escape
escape-quote s =
    (body s ++ b'"' ∷ [], ap (λ (t : Bytes). t ++ b'"' ∷ []) (escape_loop-body (b'"' ∷ []) s))

-- Characters that RFC 8259 allows inside a string: none of the control characters.
abbrev pub Printable : Bytes → Type 0
Printable = All (λ c. 32 ≤ c)

-- The characters that `escape` can carry: those, and the five control characters with a letter.
abbrev pub Carried : ℕ → Type 0
Carried c = (32 ≤ c) ⊎ ((8 ≤ c) × (c ≤ 13) × (c ≢ 11))

Printable-escape_char : (c : ℕ) → Carried c → Printable (escape_char c)
unfolding escape_char
Printable-escape_char c h = ground arith

Carried-escape_char : (c : ℕ) → Printable (escape_char c) → Carried c
unfolding escape_char
Carried-escape_char c h = ground arith

Printable-append : (a b : Bytes) → Printable (a ++ b) → Printable a × Printable b
Printable-append [] b h = (tt, h)
Printable-append (x ∷ a) b (p, h) = let (pa, pb) = Printable-append a b h in ((p, pa), pb)

Printable-body : (s : Bytes) → All Carried s → Printable (body s)
unfolding body
Printable-body [] h = tt
Printable-body (c ∷ s) (p, h) =
    All-append (λ c. 32 ≤ c) (escape_char c) (body s) (Printable-escape_char c p)
      (Printable-body s h)

Carried-body : (s : Bytes) → Printable (body s) → All Carried s
unfolding body
Carried-body [] h = tt
Carried-body (c ∷ s) h =
    let (p, q) = Printable-append (escape_char c) (body s) h in
    (Carried-escape_char c p, Carried-body s q)

escape-body : (s : Bytes) → escape s ≡ b'"' ∷ (body s ++ b'"' ∷ [])
unfolding escape
escape-body s = ap (λ (t : Bytes). t ++ b'"' ∷ []) (escape_loop-body (b'"' ∷ []) s)

-- The escaped form of a text is free of control characters exactly if the text has none but
-- backspace, tab, line feed, form feed and carriage return: any other one is copied as it is, which
-- RFC 8259 does not allow.
pub escape-Printable : (s : Bytes) → Printable (escape s) ↔ All Carried s
escape-Printable s = rw (escape-body s) (
  λ h. Carried-body s (Printable-append (body s) (b'"' ∷ []) h.1).0,
  λ h. (
    omega arith,
    All-append (λ c. 32 ≤ c) (body s) (b'"' ∷ []) (Printable-body s h) (omega arith),
  ),
)
