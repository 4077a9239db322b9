-- ===== src/Http/Methods/Form.antt =====
-- The parameters that a wrapped method sees.
use threadserver.Prelude.{
  arith, same, same_iff, ◌≡◌, ◌≢◌, refl, true, false, codes, ap, ◌∙◌, Option, none, some, List, [],
  ◌∷◌, ◌++◌, map, All, Lacks, Bytes, ok,
}
use threadserver.Prelude.Map.{lookup, with_more, with_more-append}
use threadserver.Http.Message.{Request, query_of}
use threadserver.Http.Message.Uri.{query_of-plain}
use threadserver.Http.Params.{get}
use threadserver.Http.Params.Stored.{
  Tokenizer, Written, joined, token, Sendable, form_values, lookup-parse, get-with_more,
}
use threadserver.Http.Methods.{has_body, query_params, form_params}

has_body-other :
    (method : Bytes) → method ≢ codes "POST" → method ≢ codes "PUT" → has_body method ≡ false
unfolding has_body
has_body-other method not_post not_put =
    ground (arith, same_iff method (codes "POST"), same_iff method (codes "PUT"))

lookup-query_params :
    (Header : Type 0) (tokens : Bytes → List Bytes) (request : Request Header) (path name : Bytes)
    (query : List (Written × Written))
    → Tokenizer tokens
    → Lacks b'?' path
    → Lacks b'#' path
    → Lacks b'#' (joined (map token query))
    → All Sendable query
    → request.unparsed_uri ≡ path ++ (b'?' ∷ joined (map token query))
    → lookup name (query_params Header tokens request) ≡ with_more none (form_values name query)
unfolding query_params lookup
lookup-query_params Header tokens request path name query splits mark hash lacks hq uri =
    let found : query_of request.unparsed_uri ≡ some (joined (map token query)) =
      ap query_of uri ∙ (query_of-plain path (joined (map token query)) mark hash lacks).1 in
    rw (found, query_params) (lookup-parse tokens query name [] splits hq)

get-form_params_body :
    (Header : Type 0) (tokens : Bytes → List Bytes) (request : Request Header) (path name : Bytes)
    (query sent : List (Written × Written))
    → Tokenizer tokens
    → Lacks b'?' path
    → Lacks b'#' path
    → Lacks b'#' (joined (map token query))
    → All Sendable query
    → All Sendable sent
    → request.unparsed_uri ≡ path ++ (b'?' ∷ joined (map token query))
    → request.data_text ≡ joined (map token sent)
    → has_body request.method ≡ true
    → get some name (form_params Header tokens request)
      ≡ ok (form_values name query ++ form_values name sent)
unfolding form_params
get-form_params_body Header tokens request path name query sent splits mark hash lacks hq hs uri
      text e =
    simp (e, text)
      (get-with_more name _ (form_values name query ++ form_values name sent) (
        lookup-parse tokens sent name (query_params Header tokens request) splits hs
        ∙ ap (λ (o : Option (List Bytes)). with_more o (form_values name sent))
            (lookup-query_params Header tokens request path name query splits mark hash lacks hq
              uri)
        ∙ with_more-append (form_values name query) (form_values name sent)))

get-form_params_query :
    (Header : Type 0) (tokens : Bytes → List Bytes) (request : Request Header) (path name : Bytes)
    (query : List (Written × Written))
    → Tokenizer tokens
    → Lacks b'?' path
    → Lacks b'#' path
    → Lacks b'#' (joined (map token query))
    → All Sendable query
    → request.unparsed_uri ≡ path ++ (b'?' ∷ joined (map token query))
    → has_body request.method ≡ false
    → get some name (form_params Header tokens request) ≡ ok (form_values name query)
unfolding form_params
get-form_params_query Header tokens request path name query splits mark hash lacks hq uri e =
    simp e (
      get-with_more name (query_params Header tokens request) (form_values name query)
        (lookup-query_params Header tokens request path name query splits mark hash lacks hq uri))

-- With a tokenizer that splits at "&", and forms whose names and values are written with no "&",
-- whose names are written with no "=", and each with less than 2 ^ 64 bytes: for a request whose
-- URI carries a form and has no fragment, and whose body is a form, the values of a name are, if it
-- is sent by POST, those that the form of the URI has for it with those of the body's form behind
-- them; the same if it is sent by PUT; and if it is sent by any other method, those of the URI
-- alone.
pub get-form_params :
    (Header : Type 0) (tokens : Bytes → List Bytes) (request : Request Header)
    (path name method : Bytes) (query sent : List (Written × Written))
    → Tokenizer tokens
    → Lacks b'?' path
    → Lacks b'#' path
    → Lacks b'#' (joined (map token query))
    → All Sendable query
    → All Sendable sent
    → request.unparsed_uri ≡ path ++ (b'?' ∷ joined (map token query))
    → request.data_text ≡ joined (map token sent)
    → method ≢ codes "POST"
    → method ≢ codes "PUT"
    → let params =
        λ (m : Bytes). get some name (form_params Header tokens (record request { method = m })) in
      (params (codes "POST") ≡ ok (form_values name query ++ form_values name sent))
      × (params (codes "PUT") ≡ ok (form_values name query ++ form_values name sent))
      × (params method ≡ ok (form_values name query))
unfolding has_body same
get-form_params Header tokens request path name method query sent splits mark hash lacks hq hs uri
      text not_post not_put =
    let sent_by = λ (m : Bytes). record request { method = m } in
    let with_body = λ (m : Bytes).
      get-form_params_body Header tokens (sent_by m) path name query sent splits mark hash lacks hq
        hs uri text in
    (
      with_body (codes "POST") refl,
      with_body (codes "PUT") refl,
      get-form_params_query Header tokens (sent_by method) path name query splits mark hash lacks hq
          uri (has_body-other method not_post not_put),
    )
