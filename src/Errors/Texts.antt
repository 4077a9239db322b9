-- ===== src/Errors/Texts.antt =====
-- The texts of errors: cut to the buffer and at a NUL, and, with a code, read as a format once more.
use threadserver.Prelude.{
  ◌+◌, ◌≡◌, ◌≤◌, sym, ap, ◌∙◌, Bytes, Option, none, some, List, [], ◌∷◌, ◌++◌, take, length, Lacks,
}
use mathlib.Core.Option
use threadserver.Prelude.Int.{ℤ}
use threadserver.Errors.{
  c_str, Printf, buffered, error_of_text, CodedError, coded_of_text, error_of_format,
  coded_of_format,
}
use threadserver.Errors.Cut.{
  take-Lacks, take-take, c_str-plain, c_str-buffered, buffered-plain, take-append_conversion, IsCut,
  c_str-IsCut,
}

-- What the C standard says of a format: with no percent sign it is printed as it is; and a conversion
-- for which there is no argument left is undefined.
pub record IsDocumented (p : Printf) : Type 0 where
  pub plain :
      (format : Bytes) → Lacks b'%' format → Lacks 0 format → p.render format [] ≡ some format
  pub missing : (a b : Bytes) → Lacks b'%' a → p.render (a ++ (b'%' ∷ b's' ∷ b)) [] ≡ none

module _ (p : Printf) where
  open p use {Arg, render}

  -- The text of an `Error_t` that is made of a format is, if the format is well defined with the
  -- arguments, cut from what `vsnprintf` would print: it has at most 65535 bytes and no NUL, and it
  -- ends only where there is no more, where it has 65535 bytes, or where a NUL follows. An `Error_t`
  -- that is made of that text has the same text.
  pub error_of_format-IsCut :
      (format : Bytes) (args : List Arg) (t : Bytes)
      → render format args ≡ some t
      → (text : Bytes) × (error_of_format p format args ≡ some text)
        × IsCut 65535 t text
        × (error_of_text text ≡ text)
  unfolding error_of_format error_of_text buffered
  error_of_format-IsCut format args t e = (
    buffered t,
    rw (e, error_of_format) (ap some (c_str-buffered t)),
    c_str-IsCut 65535 t,
    c_str-buffered t,
  )

  abbrev with_code : ℤ → Option Bytes → Option CodedError
  with_code code = Option.map (λ text. record { code = code; text = text })

  twice_formatted :
      (code : ℤ) (format : Bytes) (args : List Arg) (t : Bytes)
      → render format args ≡ some t
      → Lacks 0 t
      → coded_of_format p code format args
        ≡ with_code code (Option.map (λ t. c_str (buffered t)) (render (take 65535 t) []))
  unfolding coded_of_format error_of_format
  twice_formatted code format args t e h =
      rw (e, coded_of_format)
        (ap (λ s. with_code code (Option.map (λ t. c_str (buffered t)) (render s [])))
          (c_str-buffered t ∙ buffered-plain t h))

  -- With a `vsnprintf` as the C standard describes it, an error with a code that is made of a format:
  -- if what is printed first has no percent sign and no NUL, it has that code and that text, cut to
  -- 65535 bytes, and is the error that is made of the text itself. If what is printed first has no NUL
  -- and has a "%s", be it from an argument, in its first 65535 bytes and with no percent sign before,
  -- its making is undefined.
  pub coded_of_format_lem :
      (code : ℤ) (format format' : Bytes) (args args' : List Arg) (t a b : Bytes)
      → IsDocumented p
      → render format args ≡ some t
      → Lacks b'%' t
      → Lacks 0 t
      → render format' args' ≡ some (a ++ (b'%' ∷ b's' ∷ b))
      → Lacks b'%' a
      → Lacks 0 (a ++ (b'%' ∷ b's' ∷ b))
      → length a + 2 ≤ 65535
      → (coded_of_format p code format args ≡ some (record { code = code; text = take 65535 t }))
        × (coded_of_format p code format args ≡ some (coded_of_text code (take 65535 t)))
        × (coded_of_format p code format' args' ≡ none)
  unfolding coded_of_text error_of_text
  coded_of_format_lem code format format' args args' t a b d e no_percent no_nul e' before no_nul'
        fits =
      let plain = take-Lacks 0 65535 t no_nul in
      let (c, cut) = take-append_conversion 65535 a b fits in
      let made : coded_of_format p code format args
          ≡ some (record { code = code; text = take 65535 t }) =
        twice_formatted code format args t e no_nul
        ∙ ap (with_code code) (
            ap (Option.map (λ t. c_str (buffered t)))
              (d.plain (take 65535 t) (take-Lacks b'%' 65535 t no_percent) plain)
            ∙ ap some (
                c_str-buffered (take 65535 t)
                ∙ buffered-plain (take 65535 t) plain
                ∙ take-take 65535 t)) in
      (
        made,
        made
            ∙ ap (λ s. some (record { code = code; text = s }))
                (sym (c_str-plain (take 65535 t) plain)),
        twice_formatted code format' args' (a ++ (b'%' ∷ b's' ∷ b)) e' no_nul'
            ∙ ap (with_code code) (
                ap (λ s. Option.map (λ t. c_str (buffered t)) (render s [])) cut
                ∙ ap (Option.map (λ t. c_str (buffered t))) (d.missing a c before)),
      )
