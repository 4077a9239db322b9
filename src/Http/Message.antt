-- ===== src/Http/Message.antt =====
-- Requests, responses and exceptions of the HTTP handler, and the parts of a request's URI.
-- `FRPC::HTTPHeader_t` is the parameter `Header`.
pub mod Uri
use threadserver.Prelude.{
  ℕ, ◌+◌, ◌-◌, Bool, true, false, Option, none, some, List, [], ◌∷◌, ◌++◌, Bytes, codes, find, same,
  substr, substr_from, ltb, if◌then◌else◌, Result, ok, err,
}
use threadserver.Prelude.Int.{ℤ, pos, is_error_code}
use Prim.Native.Nat.{min}

-- What may be thrown: an `HttpError_t` with its code, the `system_error` of a broken pipe, any other
-- `std::exception`, each with the text that `what()` gives, and a value of another type.
pub data Exception : Type 0 where
  http_error : ℤ → Bytes → Exception
  broken_pipe : Bytes → Exception
  std_exception : Bytes → Exception
  unknown : Exception

-- `e.what()`
unfoldable pub what : Exception → Option Bytes
what (http_error code text) = some text
what (broken_pipe text) = some text
what (std_exception text) = some text
what unknown = none

module _ (Header : Type 0) where
  -- `Request_t`, with the fields of `Message_t`
  pub record Request : Type 0 where
    pub status : ℤ
    pub protocol : Bytes
    pub headers : Header
    pub content_type : Bytes
    pub data_text : Bytes
    pub method : Bytes
    pub unparsed_uri : Bytes
    pub uri : Bytes
    pub match_groups : List Bytes

  -- `Response_t`, with the fields of `Message_t`
  pub record Response : Type 0 where
    pub status : ℤ
    pub protocol : Bytes
    pub headers : Header
    pub content_type : Bytes
    pub data_text : Bytes
    pub status_message : Bytes
    pub debug_log_info : Bytes
    pub dont_log : Bool

  -- `Message_t` with its default protocol, and no headers.
  unfoldable pub new_request : Header → Request
  new_request no_headers = record {
    status = pos 200;
    protocol = codes "HTTP/1.0";
    headers = no_headers;
    content_type = [];
    data_text = [];
    method = [];
    unparsed_uri = [];
    uri = [];
    match_groups = [];
  }

  unfoldable pub new_response : Header → Request → Response
  new_response no_headers request = record {
    status = pos 200;
    protocol = request.protocol;
    headers = no_headers;
    content_type = [];
    data_text = [];
    status_message = [];
    debug_log_info = [];
    dont_log = false;
  }

-- `request.uri`: what stands before the first "?" or "#".
unfoldable pub path_of : Bytes → Bytes
path_of unparsed = elim (find b'?' unparsed) [
  | none ↦ elim (find b'#' unparsed) [ none ↦ unparsed | some at2 ↦ substr unparsed 0 at2 ]
  | some at ↦ elim (find b'#' unparsed) [
    | none ↦ substr unparsed 0 at
    | some at2 ↦ substr unparsed 0 (min at at2)
  ]
]

-- The text that the methods parse for parameters, if any. The second argument of `substr` is a
-- count, and the code gives it the position of "#".
unfoldable pub query_of : Bytes → Option Bytes
query_of unparsed = elim (find b'?' unparsed) [
  | none ↦ none
  | some at ↦ elim (find b'#' unparsed) [
    | none ↦ some (substr_from unparsed (at + 1))
    | some at2 ↦ if ltb at at2 then some (substr unparsed (at + 1) at2) else none
  ]
]
