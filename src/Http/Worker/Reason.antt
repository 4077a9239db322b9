-- ===== src/Http/Worker/Reason.antt =====
-- The reason phrases of `Worker_t::handle`: its `switch` over the status.
use threadserver.Prelude.{
  ℕ, Option, none, some, List, [], ◌∷◌, Bytes, codes, String, or_else, is_empty, ◌==◌,
  if◌then◌else◌,
}
use threadserver.Prelude.Int.{ℤ, pos, negsuc}

abbrev pub phrases : List (ℕ × String)
phrases =
    (100, "Continue")
    ∷ (101, "Switching Protocols")
    ∷ (200, "OK")
    ∷ (201, "Created")
    ∷ (202, "Accepted")
    ∷ (203, "Non-Authoritative Information")
    ∷ (204, "No Content")
    ∷ (205, "Reset Content")
    ∷ (206, "Partial Content")
    ∷ (300, "Multiple Choices")
    ∷ (301, "Moved Permanently")
    ∷ (302, "Found")
    ∷ (303, "See Other")
    ∷ (304, "Not Modified")
    ∷ (305, "Use Proxy")
    ∷ (307, "Temporary Redirect")
    ∷ (400, "Bad Request")
    ∷ (401, "Unauthorized")
    ∷ (402, "Payment Required")
    ∷ (403, "Forbidden")
    ∷ (404, "Not Found")
    ∷ (405, "Method Not Allowed")
    ∷ (406, "Not Acceptable")
    ∷ (407, "Proxy Authentication Required")
    ∷ (408, "Request Timeout")
    ∷ (409, "Conflict")
    ∷ (410, "Gone")
    ∷ (411, "Length Required")
    ∷ (412, "Precondition Failed")
    ∷ (413, "Request Entity Too Large")
    ∷ (414, "Request-URI Too Long")
    ∷ (415, "Unsupported Media Type")
    ∷ (416, "Request Range Not Satisfiable")
    ∷ (417, "Expectation Failed")
    ∷ (500, "Internal Server Error")
    ∷ (501, "Not Implemented")
    ∷ (502, "Bad Gateway")
    ∷ (503, "Service Unavailable")
    ∷ (504, "Gateway Timeout")
    ∷ (505, "HTTP Version Not Supported")
    ∷ []

unfoldable pub phrase_of : ℕ → List (ℕ × String) → Option Bytes
phrase_of n [] = none
phrase_of n ((code, phrase) ∷ rest) = if n == code then some (codes phrase) else phrase_of n rest

-- The default branch: the method's own message, or "Unknown".
unfoldable pub default_phrase : Bytes → Bytes
default_phrase message = if is_empty message then codes "Unknown" else message

unfoldable pub reason : ℤ → Bytes → Bytes
unfolding phrase_of default_phrase
reason (pos n) message = or_else (phrase_of n phrases) (default_phrase message)
reason (negsuc n) message = default_phrase message
