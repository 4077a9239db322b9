-- ===== src/Tests/Messages.antt =====
-- Examples of the texts of errors, with a `vsnprintf` that knows "%s" and "%%".
use threadserver.Prelude.{
  ◌≡◌, refl, Bytes, Option, none, some, List, [], ◌∷◌, ◌++◌, codes, Lacks, arith, ◌==◌, take,
  if◌then◌else◌,
}
use mathlib.Core.Option
use threadserver.Prelude.Int.{pos}
use threadserver.Errors.{Printf, error_of_format, error_of_text, coded_of_format, coded_of_text}
use threadserver.Errors.Cut.{IsCut}
use threadserver.Errors.Texts.{IsDocumented, error_of_format-IsCut, coded_of_format_lem}

with_text : Bytes → Option Bytes → Option Bytes
with_text text rest = Option.map (λ t. text ++ t) rest

render : Bytes → List Bytes → Option Bytes
unfolding with_text
render [] args = some []
render (c ∷ []) args = if c == b'%' then none else some (c ∷ [])
render (c ∷ d ∷ f) [] =
    let next = render (d ∷ f) [] in
    let behind = render f [] in
    if c == b'%'
    then (if d == b'%' then with_text (b'%' ∷ []) behind else none)
    else with_text (c ∷ []) next
render (c ∷ d ∷ f) (arg ∷ args) =
    let next = render (d ∷ f) (arg ∷ args) in
    let behind = render f (arg ∷ args) in
    let used = render f args in
    if c == b'%'
    then (if d == b'%'
        then with_text (b'%' ∷ []) behind
        else if d == b's'
        then with_text arg used
        else none)
    else with_text (c ∷ []) next

abbrev printf : Printf
printf = record { Arg = Bytes; render = render }

render-plain : (f : Bytes) → Lacks b'%' f → render f [] ≡ some f
unfolding render
render-plain [] h = refl
render-plain (c ∷ []) h = ground arith
render-plain (c ∷ d ∷ f) h = ground (arith, render-plain (d ∷ f) h.1)

render-missing : (a b : Bytes) → Lacks b'%' a → render (a ++ (b'%' ∷ b's' ∷ b)) [] ≡ none
unfolding render
render-missing [] b h = refl
render-missing (x ∷ []) b h = ground arith
render-missing (x ∷ y ∷ a) b h = ground (arith, render-missing (y ∷ a) b h.1)

printf-IsDocumented : IsDocumented printf
printf-IsDocumented = record { plain = λ f h k. render-plain f h; missing = render-missing }

error_of_format-IsCut_example :
    (text : Bytes) × (error_of_format printf (codes "Can't open %s") (codes "a" ∷ []) ≡ some text)
    × IsCut 65535 (codes "Can't open a") text
    × (error_of_text text ≡ text)
unfolding render
error_of_format-IsCut_example =
    error_of_format-IsCut printf (codes "Can't open %s") (codes "a" ∷ []) (codes "Can't open a")
      refl

coded_of_format_lem_example :
    (coded_of_format printf (pos 404) (codes "No %s") (codes "a" ∷ [])
      ≡ some (record { code = pos 404; text = take 65535 (codes "No a") }))
    × (coded_of_format printf (pos 404) (codes "No %s") (codes "a" ∷ [])
        ≡ some (coded_of_text (pos 404) (take 65535 (codes "No a"))))
    × (coded_of_format printf (pos 404) (codes "No %s") (codes "5%s" ∷ []) ≡ none)
unfolding render
coded_of_format_lem_example =
    coded_of_format_lem printf (pos 404) (codes "No %s") (codes "No %s") (codes "a" ∷ [])
      (codes "5%s" ∷ []) (codes "No a") (codes "No 5") [] printf-IsDocumented refl (omega arith)
      (omega arith) refl (omega arith) (omega arith) (omega arith)
