-- ===== src/Http/Methods.antt =====
-- The method wrappers of cpphttphandler.h: `HttpMethod_t`, `HttpMethod2_t`, `JsonMethod_t` and
-- `JsonMethod2_t`. What a wrapped handler returns is a `Result`; the response is its state.
pub mod Form
pub mod Redirect
use threadserver.Prelude.{
  Bool, true, false, Option, none, some, [], ◌∷◌, ◌++◌, ◌||◌, List, Bytes, codes, same, has_prefix,
  Result, ok, err, if◌then◌else◌,
}
use threadserver.Prelude.Int.{ℤ, is_error_code}
use threadserver.Prelude.Exec.{Exec, throw, try_catch, modify, ◌>>=◌, ◌>>◌}
use threadserver.Http.Message.{
  Exception, http_error, broken_pipe, std_exception, unknown, Request, Response, query_of,
}
use threadserver.Http.Params.{Data, parse}
use threadserver.Http.Mime.{Mimetic, MimeParameters, parse_mime}

-- `request.method == "POST" || request.method == "PUT"`
unfoldable pub has_body : Bytes → Bool
has_body method = same method (codes "POST") || same method (codes "PUT")

abbrev pub json_type : Bytes
json_type = codes "application/json; charset=utf-8"

module _ (Header : Type 0) where
  -- The `catch (const HttpError_t &e)` that ends each wrapper: codes below 400 are no failures.
  unfoldable pub redirect : Exception → Exec (Response Header) Exception (Unit {0})
  redirect (http_error code text) =
      if is_error_code code
      then throw (http_error code text)
      else modify (λ response. record response { status = code })
  redirect (broken_pipe text) = throw (broken_pipe text)
  redirect (std_exception text) = throw (std_exception text)
  redirect unknown = throw unknown

  module _ {Value : Type 0} (text_of : Value → Bytes) where
    -- What the JSON wrappers do around a handler.
    unfoldable pub json_answer :
        Exec (Response Header) Exception Value → Exec (Response Header) Exception (Unit {0})
    unfolding redirect
    json_answer handler = do
      modify (λ response. record response { content_type = json_type })
      try_catch
          (do value ← handler; modify (λ response. record response { data_text = text_of value }))
          redirect

  module _ (tokens : Bytes → List Bytes) where
    -- The parameters of the URI.
    unfoldable pub query_params : Request Header → Data
    query_params request = elim (query_of request.unparsed_uri) [
      | none ↦ []
      | some query ↦ parse tokens query []
    ]

    -- `params` of `HttpMethod_t` and `JsonMethod_t`
    unfoldable pub form_params : Request Header → Data
    form_params request =
        if has_body request.method
        then parse tokens request.data_text (query_params request)
        else query_params request

    abbrev pub with_query : Request Header → MimeParameters
    with_query request = record { stored = query_params request; file_data = [] }

    -- `params` of `HttpMethod2_t` and `JsonMethod2_t`
    unfoldable pub mime_params : Mimetic → Request Header → MimeParameters
    unfolding query_params has_body
    mime_params mimetic request =
        if has_body request.method
        then (if has_prefix (codes "multipart/form-data") request.content_type
            then parse_mime mimetic
                (codes "Content-Type: "
                  ++ (request.content_type ++ (codes "\r\n\r\n" ++ request.data_text)))
                (with_query request)
            else record (with_query request) {
              stored = parse tokens request.data_text (query_params request);
            })
        else with_query request

    -- `HttpMethod_t::call`
    unfoldable pub http_method :
        (Request Header → Data → Exec (Response Header) Exception (Unit {0}))
        → Request Header
        → Exec (Response Header) Exception (Unit {0})
    unfolding redirect
    http_method handler request = try_catch (handler request (form_params request)) redirect

    -- `HttpMethod2_t::call`
    unfoldable pub http_method2 :
        Mimetic
        → (Request Header → MimeParameters → Exec (Response Header) Exception (Unit {0}))
        → Request Header
        → Exec (Response Header) Exception (Unit {0})
    unfolding redirect
    http_method2 mimetic handler request =
        try_catch (handler request (mime_params mimetic request)) redirect

    module _ {Value : Type 0} (text_of : Value → Bytes) where
      -- `JsonMethod_t::call`
      unfoldable pub json_method :
          (Request Header → Data → Exec (Response Header) Exception Value)
          → Request Header
          → Exec (Response Header) Exception (Unit {0})
      unfolding json_answer
      json_method handler request = json_answer text_of (handler request (form_params request))

      -- `JsonMethod2_t::call`
      unfoldable pub json_method2 :
          Mimetic
          → (Request Header → MimeParameters → Exec (Response Header) Exception Value)
          → Request Header
          → Exec (Response Header) Exception (Unit {0})
      unfolding json_answer
      json_method2 mimetic handler request =
          json_answer text_of (handler request (mime_params mimetic request))
