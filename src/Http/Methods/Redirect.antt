-- ===== src/Http/Methods/Redirect.antt =====
-- What becomes of an `HttpError_t` that a wrapped handler throws.
use threadserver.Prelude.{
  ◌≡◌, some, List, Bytes, ok, err, if◌then◌else◌, arith, codes, Bool-cases, inl, inr,
}
use threadserver.Prelude.Int.{ℤ, is_error_code}
use threadserver.Prelude.Exec.{Exec}
use threadserver.Http.Message.{Exception, http_error, Request, Response}
use threadserver.Http.Params.{Data}
use threadserver.Http.Library.{Library}
use threadserver.Http.Worker.{Registry, find_method}
use threadserver.Http.Worker.Handle.{respond}
use threadserver.Http.Worker.Handle.Answer.{given, fresh, respond-found}
use threadserver.Http.Methods.{json_type, json_answer, http_method, json_method, form_params}

module _ (Header : Type 0) (tokens : Bytes → List Bytes) where
  -- A handler that throws an `HttpError_t` with a code from 400 on has it thrown on, with the
  -- response as it left it; with a lower code the wrapper returns, and the response has that code as
  -- its status and is otherwise as the handler left it.
  pub http_method-http_error :
      (handler : Request Header → Data → Exec (Response Header) Exception (Unit {0}))
      (request : Request Header) (before after : Response Header) (code : ℤ) (text : Bytes)
      → handler request (form_params Header tokens request) before
        ≡ (err (http_error code text), after)
      → http_method Header tokens handler request before ≡ (
          if is_error_code code
          then (err (http_error code text), after)
          else (ok tt, record after { status = code }))
  unfolding http_method
  http_method-http_error handler request before after code text h = rw h (ground arith)

  json_answer-http_error :
      {Value : Type 0} (text_of : Value → Bytes) (handler : Exec (Response Header) Exception Value)
      (before after : Response Header) (code : ℤ) (text : Bytes)
      → handler (record before { content_type = json_type }) ≡ (err (http_error code text), after)
      → json_answer Header text_of handler before ≡ (
          if is_error_code code
          then (err (http_error code text), after)
          else (ok tt, record after { status = code }))
  unfolding json_answer
  json_answer-http_error text_of handler before after code text h = rw h (ground arith)

  -- A JSON handler that returns has the text of its value as the response's body, under the JSON
  -- content type unless it set another.
  pub json_method-returns :
      {Value : Type 0} (text_of : Value → Bytes)
      (handler : Request Header → Data → Exec (Response Header) Exception Value)
      (request : Request Header) (before after : Response Header) (value : Value)
      → handler request
          (form_params Header tokens request)
          (record before { content_type = json_type })
        ≡ (ok value, after)
      → json_method Header tokens text_of handler request before
        ≡ (ok tt, record after { data_text = text_of value })
  unfolding json_method
  json_method-returns text_of handler request before after value h = rw h

module _ (lib : Library) (tokens : Bytes → List Bytes) where
  open lib use {Header}

  -- From the handler to the answer: an `HttpError_t` that a handler under `httpMethod` throws,
  -- where the first entry that matches leads to that handler, is always answered by its own code.
  -- From 400 on the body is the text of the error; below, it is what the handler wrote before, and
  -- the content type that it set goes into the headers.
  pub respond-http_error :
      (registry : Registry lib) (request : Request Header) (groups : List Bytes)
      (handler : Request Header → Data → Exec (Response Header) Exception (Unit {0}))
      (after : Response Header) (code : ℤ) (text : Bytes)
      → find_method lib registry request.uri ≡ some (http_method Header tokens handler, groups)
      → handler
          (given lib request groups)
          (form_params Header tokens (given lib request groups))
          (fresh lib request)
        ≡ (err (http_error code text), after)
      → ((respond lib registry request).1.status ≡ code)
        × ((respond lib registry request).1.data_text
            ≡ (if is_error_code code then text else after.data_text))
        × ((respond lib registry request).1.headers ≡ (
            if is_error_code code
            then after.headers
            else lib.header_set after.headers (codes "Content-Type") after.content_type))
  respond-http_error registry request groups handler after code text found thrown =
      let base =
        respond-found lib registry request (http_method Header tokens handler) groups found in
      let e =
        http_method-http_error Header tokens handler (given lib request groups) (fresh lib request)
          after code text thrown in
      elim (Bool-cases (is_error_code code)) [
        | inl c ↦ rw c (rw (e, c) at base)
        | inr c ↦ rw c (rw (e, c) at base)
      ]
