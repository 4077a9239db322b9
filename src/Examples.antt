-- ===== src/Examples.antt =====
-- src/handlers/cpphttphandler/testmodule/httpinterface.cc: the method of the example module, as a JSON
-- method of the HTTP handler.
pub mod Serving
use threadserver.Prelude.{
  ◌≡◌, refl, ap, true, false, Option, none, some, List, [], ◌++◌, Bytes, codes, Result, ok, err,
  same, decimal, before,
}
use mathlib.Core.List.{append_assoc}
use threadserver.Prelude.Int.{pos}
use threadserver.Prelude.Map.{assign}
use threadserver.Prelude.Exec.{Exec, pure, ◌>>=◌, ◌>>◌}
use threadserver.Http.Message.{Exception, unknown, Request, Response}
use threadserver.Http.Params.{Data, get_first}
use threadserver.Http.Methods.{json_type, form_params, json_answer, json_method}
use threadserver.Json.{
  Ref, null_ref, at, Cell, string, int, double, bool, struct, array, Pool, allocate, update, append,
  push_back, escape, print, PrintError,
}

module _ {Double : Type 0} (show_double : Double → Bytes) (number : Double) where
  abbrev Building : Type 0 → Type 0
  Building = Exec (Pool Double) Exception

  -- `pool.String(...)` and the like
  abbrev new : Cell Double → Building Ref
  new cell pool = let (ref, pool') = allocate Double cell pool in (ok ref, pool')

  -- `append` and `push_back` on the object that a reference names.
  abbrev set_field : Ref → Bytes → Ref → Building (Unit {0})
  set_field null_ref name value pool = (ok tt, pool)
  set_field (at n) name value pool = (ok tt, append Double n name value pool)

  abbrev add_item : Ref → Ref → Building (Unit {0})
  add_item null_ref value pool = (ok tt, pool)
  add_item (at n) value pool = (ok tt, push_back Double n value pool)

  abbrev add_test : Ref → Option Bytes → Building (Unit {0})
  add_test result none = pure tt
  add_test result (some test) = do value ← new (string test); set_field result (codes "test") value

  -- `testMethod` from its parameter on. The order in which the arguments of the chain of `append` are
  -- made is not specified; here each is made before it is appended.
  unfoldable pub build : Option Bytes → Building Ref
  unfolding allocate append push_back update
  build test = do
    result ← new (struct [])
    text ← new (string (codes "String"))
    set_field result (codes "string") text
    one ← new (int (pos 1))
    set_field result (codes "int") one
    decimals ← new (double number)
    set_field result (codes "double") decimals
    set_field result (codes "null") null_ref
    truth ← new (bool true)
    set_field result (codes "true") truth
    falsity ← new (bool false)
    set_field result (codes "false") falsity
    items ← new (array [])
    hello ← new (string (codes "Hello"))
    add_item items hello
    world ← new (string (codes "World!"))
    add_item items world
    set_field result (codes "array") items
    add_test result test
    pure result

  -- The text of a value in its pool; the pool of the example is three objects deep.
  abbrev pub shown : Result PrintError Bytes → Bytes
  shown (ok text) = text
  shown (err e) = []

  abbrev pub text_of : Pool Double × Ref → Bytes
  text_of (pool, value) = shown (print show_double 3 pool value)

  abbrev pub built : Result Exception Ref × Pool Double → Result Exception (Pool Double × Ref)
  built (ok value, pool) = ok (pool, value)
  built (err e, pool) = err e

  module _ (Header : Type 0) where
    -- `testMethod`. A cast to a text does not fail; a name with no value, whose front is undefined, is
    -- in no parsed form.
    unfoldable pub test_method :
        Request Header → Data → Exec (Response Header) Exception (Pool Double × Ref)
    unfolding build
    test_method request params response = elim (get_first some (codes "test") params) [
      | ok test ↦ (built (build test []), response)
      | err e ↦ (err unknown, response)
    ]

  abbrev pub test_field : Option Bytes → Bytes
  test_field none = []
  test_field (some test) = codes ",\"test\":" ++ escape test

  -- What the example answers.
  abbrev pub example_text : Option Bytes → Bytes
  example_text test =
      codes "{\"array\":[\"Hello\",\"World!\"],\"double\":"
      ++ (show_double number
          ++ (codes ",\"false\":false,\"int\":1,\"null\":null,\"string\":\"String\""
              ++ (test_field test ++ codes ",\"true\":true}")))

  built_text :
      (test : Option Bytes)
      → (value : Pool Double × Ref) × (built (build test []) ≡ ok value)
        × (text_of value ≡ example_text test)
  unfolding build print decimal same before assign
  built_text none = (_, refl, simp append_assoc)
  built_text (some test) = (_, refl, simp append_assoc)

  -- The method of the example module, called by `jsonMethod` for any request whose parameters have
  -- `test` as the first value of that name, or no value: the response is JSON, and its text is a struct
  -- with the fields of the example in increasing order of their names, the last but one with that
  -- value, escaped, if there is one. Nothing else of the response is changed.
  pub json_method-test_method :
      (Header : Type 0) (tokens : Bytes → List Bytes) (request : Request Header)
      (response : Response Header) (test : Option Bytes)
      → get_first some (codes "test") (form_params Header tokens request) ≡ ok test
      → json_method Header tokens text_of (test_method Header) request response
        ≡ (ok tt, record response { content_type = json_type; data_text = example_text test })
  unfolding json_method json_answer test_method
  json_method-test_method Header tokens request response test e =
      let (value, made, text) = built_text test in
      rw (e, test_method)
        (rw made
          (ap (λ t. (ok tt, record response { content_type = json_type; data_text = t })) text))
