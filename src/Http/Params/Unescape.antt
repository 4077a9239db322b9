-- ===== src/Http/Params/Unescape.antt =====
-- `Parameters_t::unescape` undoes the encoding of a form.
use threadserver.Prelude.{
  ℕ, ◌+◌, ◌-◌, ◌/◌, ◌%◌, ◌^◌, ◌≤◌, ◌<◌, ◌≡◌, ◌≢◌, refl, ap, ◌∙◌, Bool, true, none, some, List, [],
  ◌∷◌, ◌++◌, arith, Bytes, All, length, ltb, lt→ltb, ◌==◌, if◌then◌else◌,
}
use threadserver.Http.Params.{unhex, hex_pair, decoded, unescape_from, unescape}

-- One round that takes one character.
unescape_from-next :
    (size i c : ℕ) (rest : Bytes)
    → decoded size i c rest ≡ none
    → unescape_from size i (c ∷ rest)
      ≡ (if c == b'+' then b' ' else c) ∷ unescape_from size (i + 1) rest
unfolding unescape_from
unescape_from-next size i c [] h = ground arith
unescape_from-next size i c (d1 ∷ []) h = ground arith
unescape_from-next size i c (d1 ∷ d2 ∷ rest) h = ground arith

-- A round at a percent sign that stands for a byte.
unescape_from-skip :
    (size i c x d1 d2 : ℕ) (rest : Bytes)
    → c ≢ b'+'
    → decoded size i c (d1 ∷ d2 ∷ rest) ≡ some x
    → unescape_from size i (c ∷ d1 ∷ d2 ∷ rest) ≡ x ∷ unescape_from size (i + 3) rest
unfolding unescape_from
unescape_from-skip size i c x d1 d2 rest ne h = ground arith

-- How an encoder may write a byte: as it is, a blank as a plus, or by two hexadecimal digits.
pub data Style : Type 0 where
  literal plus : Style
  hex : (upper : Bool) → Style

abbrev pub Fits : Style × ℕ → Type 0
Fits (literal, c) = (c ≢ b'+') × (c ≢ b'%')
Fits (plus, c) = c ≡ b' '
Fits (hex upper, c) = c < 256

unfoldable pub digit : Bool → ℕ → ℕ
digit upper d = if ltb d 10 then b'0' + d else if upper then b'A' + d - 10 else b'a' + d - 10

unfoldable pub write : Style × ℕ → Bytes
unfolding digit
write (literal, c) = c ∷ []
write (plus, c) = b'+' ∷ []
write (hex upper, c) = b'%' ∷ digit upper (c / 16) ∷ digit upper (c % 16) ∷ []

unfoldable pub encode : List (Style × ℕ) → Bytes
unfolding write
encode [] = []
encode (p ∷ form) = write p ++ encode form

abbrev pub plain : List (Style × ℕ) → Bytes
plain [] = []
plain ((style, c) ∷ form) = c ∷ plain form

unhex-digit : (upper : Bool) (d : ℕ) → d < 16 → unhex (digit upper d) ≡ some d
unfolding unhex digit
unhex-digit upper d h = ground arith

hex_pair-digits :
    (upper : Bool) (c : ℕ) (rest : Bytes)
    → c < 256
    → hex_pair (digit upper (c / 16) ∷ digit upper (c % 16) ∷ rest) ≡ some c
unfolding hex_pair
hex_pair-digits upper c rest h =
    ground
      (arith, unhex-digit upper (c / 16) (omega arith), unhex-digit upper (c % 16) (omega arith))

decoded-literal : (size i c : ℕ) (rest : Bytes) → c ≢ b'%' → decoded size i c rest ≡ none
unfolding decoded
decoded-literal size i c rest ne = ground arith

decoded-hex :
    (size i c : ℕ) (upper : Bool) (rest : Bytes)
    → c < 256
    → i + 3 ≤ size
    → size < 2 ^ 64
    → decoded size i b'%' (digit upper (c / 16) ∷ digit upper (c % 16) ∷ rest) ≡ some c
unfolding decoded
decoded-hex size i c upper rest h le lt =
    let fits : ltb i ((size + 2 ^ 64 - 2) % 2 ^ 64) ≡ true = lt→ltb _ _ (omega arith) in
    rw (fits, decoded) (hex_pair-digits upper c rest h)

unescape_from-encode :
    (size i : ℕ) (form : List (Style × ℕ))
    → All Fits form
    → i + length (encode form) ≡ size
    → size < 2 ^ 64
    → unescape_from size i (encode form) ≡ plain form
unfolding encode
unescape_from-encode size i [] h e lt = unfold unescape_from in refl
unescape_from-encode size i ((literal, c) ∷ form) ((np, nq), h) e lt =
    unescape_from-next size i c (encode form) (decoded-literal size i c (encode form) nq)
    ∙ ground (arith, unescape_from-encode size (i + 1) form h (omega arith) lt)
unescape_from-encode size i ((plus, c) ∷ form) (b, h) e lt =
    unescape_from-next size i b'+' (encode form)
      (decoded-literal size i b'+' (encode form) (omega arith))
    ∙ ground (arith, unescape_from-encode size (i + 1) form h (omega arith) lt)
unescape_from-encode size i ((hex upper, c) ∷ form) (b, h) e lt =
    unescape_from-skip size i b'%' c (digit upper (c / 16)) (digit upper (c % 16)) (encode form)
      (omega arith) (decoded-hex size i c upper (encode form) b (omega arith) lt)
    ∙ ap (◌∷◌ c) (unescape_from-encode size (i + 3) form h (omega arith) lt)

-- A text whose bytes are written as they are (except plus and percent signs), blanks as plus signs,
-- or as a percent sign and two hexadecimal digits of either case, in any mixture, is read back, if
-- what is written has less than 2 ^ 64 bytes.
pub unescape-encode :
    (form : List (Style × ℕ))
    → All Fits form
    → length (encode form) < 2 ^ 64
    → unescape (encode form) ≡ plain form
unfolding unescape
unescape-encode form h lt = unescape_from-encode (length (encode form)) 0 form h (omega arith) lt

unescape_from-length : (size i : ℕ) (s : Bytes) → length (unescape_from size i s) ≤ length s
unfolding unescape_from
unescape_from-length size i [] = omega arith
unescape_from-length size i (c ∷ []) = ground arith
unescape_from-length size i (c ∷ d ∷ []) =
    ground (arith, unescape_from-length size (i + 1) (d ∷ []))
unescape_from-length size i (c ∷ d1 ∷ d2 ∷ rest) = ground (
  arith,
  unescape_from-length size (i + 1) (d1 ∷ d2 ∷ rest),
  unescape_from-length size (i + 3) rest,
)

-- Unescaping never makes a text longer.
length-unescape : (s : Bytes) → length (unescape s) ≤ length s
unfolding unescape
length-unescape s = unescape_from-length (length s) 0 s
