-- ===== src/Tests/Forms.antt =====
-- Examples of forms and of the parts of a URI.
use threadserver.Prelude.{
  same_iff, ℕ, if◌then◌else◌, Bytes, none, Option, ◌≡◌, ◌≢◌, refl, true, false, some, List, [], ◌∷◌,
  ◌++◌, map, codes, ok, arith, Lacks, All, same,
}
use threadserver.Http.Params.{unescape, get}
use threadserver.Http.Params.Unescape.{
  literal, plus, hex, Fits, encode, write, digit, unescape-encode,
}
use threadserver.Http.Params.Stored.{Written, Sendable, joined, token}
use threadserver.Http.Message.{Request, new_request}
use threadserver.Http.Methods.{form_params}
use threadserver.Http.Methods.Form.{get-form_params}
use threadserver.Http.Mime.{Mimetic, parse_mime, get_files, decode}
use threadserver.Http.Mime.Parts.{get_files-parse_mime}
use threadserver.Prelude.Map.{lookup}
use threadserver.Http.Params.Indexed.{
  Comes, get_indexed, indexed_from, cast_indexes, front, insert_indexed, same_indexes,
  before_indexes,
}
use threadserver.Http.Params.Indexed.Complete.{Matches, answers, get_indexed-Matches}
use threadserver.Boost.Sample.{sample, number_below}
use threadserver.Prelude.Decimal.{read_digits, is_digit}
use threadserver.Tests.{lacks, lacks-Lacks, at_ampersands, at_ampersands-Tokenizer}

-- "a" written as it is, a blank as a plus, "&" and "/" in hexadecimal.
abbrev pub mixed : Written
mixed = (literal, b'a') ∷ (plus, b' ') ∷ (hex true, b'&') ∷ (hex false, b'/') ∷ []

mixed-Fits : All Fits mixed
mixed-Fits = ((λ e. omega arith, λ e. omega arith), (refl, (omega arith, (omega arith, tt))))

unescape-encode_example : unescape (codes "a+%26%2f") ≡ codes "a &/"
unfolding encode write digit
unescape-encode_example = unescape-encode mixed mixed-Fits (omega arith)

abbrev pub key : Written
key = (literal, b'k') ∷ []

abbrev pub name_j : Written
name_j = (literal, b'j') ∷ []

abbrev pub form : List (Written × Written)
form = (key, mixed) ∷ (name_j, []) ∷ (key, key) ∷ []

pub form-Sendable : All Sendable form
unfolding encode write digit lacks
form-Sendable = (
  (
    (((λ e. omega arith), (λ e. omega arith)), tt),
    mixed-Fits,
    lacks-Lacks b'=' (codes "k") refl,
    lacks-Lacks b'&' (codes "k") refl,
    lacks-Lacks b'&' (codes "a+%26%2f") refl,
    omega arith,
    omega arith,
  ),
  (
    (
      (((λ e. omega arith), (λ e. omega arith)), tt),
      tt,
      lacks-Lacks b'=' (codes "j") refl,
      lacks-Lacks b'&' (codes "j") refl,
      tt,
      omega arith,
      omega arith,
    ),
    (
      (
        (((λ e. omega arith), (λ e. omega arith)), tt),
        (((λ e. omega arith), (λ e. omega arith)), tt),
        lacks-Lacks b'=' (codes "k") refl,
        lacks-Lacks b'&' (codes "k") refl,
        lacks-Lacks b'&' (codes "k") refl,
        omega arith,
        omega arith,
      ),
      tt,
    ),
  ),
)

path-mark : Lacks b'?' (codes "/a")
unfolding lacks
path-mark = lacks-Lacks b'?' (codes "/a") refl

path-hash : Lacks b'#' (codes "/a")
unfolding lacks
path-hash = lacks-Lacks b'#' (codes "/a") refl

query-hash : Lacks b'#' (codes "k=1")
unfolding lacks
query-hash = lacks-Lacks b'#' (codes "k=1") refl

abbrev posted : Request Unit
posted = record (new_request Unit tt) {
  method = codes "POST";
  unparsed_uri = codes "/a" ++ (b'?' ∷ joined (map token form));
  data_text = joined (map token form);
}

form-hash : Lacks b'#' (joined (map token form))
unfolding lacks encode write digit
form-hash = lacks-Lacks b'#' (joined (map token form)) refl

differ : (a b : Bytes) → same a b ≡ false → a ≢ b
differ a b h = λ e. cc (h, (same_iff a b).1 e)

get_is_no_post : codes "GET" ≢ codes "POST"
unfolding same
get_is_no_post = differ (codes "GET") (codes "POST") refl

get_is_no_put : codes "GET" ≢ codes "PUT"
unfolding same
get_is_no_put = differ (codes "GET") (codes "PUT") refl

get-form_params_example :
    let params = λ (m : Bytes).
      get some (codes "k") (form_params Unit at_ampersands (record posted { method = m })) in
    (params (codes "POST") ≡ ok (codes "a &/" ∷ codes "k" ∷ codes "a &/" ∷ codes "k" ∷ []))
    × (params (codes "PUT") ≡ ok (codes "a &/" ∷ codes "k" ∷ codes "a &/" ∷ codes "k" ∷ []))
    × (params (codes "GET") ≡ ok (codes "a &/" ∷ codes "k" ∷ []))
unfolding same
get-form_params_example =
    get-form_params Unit at_ampersands posted (codes "/a") (codes "k") (codes "GET") form form
      at_ampersands-Tokenizer path-mark path-hash form-hash form-Sendable form-Sendable refl refl
      get_is_no_post get_is_no_put

-- A text of two parts: a field and a file.
abbrev two_parts : Mimetic
two_parts = record {
  parts = λ text.
      record {
        type = [];
        subtype = [];
        disposition = (codes "name", codes "k") ∷ [];
        mechanism = [];
        body = text;
      }
      ∷ record {
        type = codes "text";
        subtype = codes "plain";
        disposition = (codes "filename", codes "f") ∷ (codes "name", codes "k") ∷ [];
        mechanism = codes "base64";
        body = text;
      }
      ∷ [];
  same_key = same;
  base64_name = codes "base64";
  quoted_printable_name = codes "quoted-printable";
  decode_base64 = λ text. codes "decoded";
  decode_quoted_printable = λ text. text;
}

get_files-parse_mime_example :
    let parsed = parse_mime two_parts (codes "x") (record { stored = []; file_data = [] }) in
    (lookup (codes "k") parsed.stored ≡ some (codes "x" ∷ []))
    × (get_files (codes "k") parsed
        ≡ record {
          data_text = codes "decoded";
          content_type = codes "text/plain";
          filename = codes "f";
        }
          ∷ [])
unfolding same decode lookup get_files
get_files-parse_mime_example =
    get_files-parse_mime two_parts (codes "x") (codes "k") (record { stored = []; file_data = [] })

-- The expression of "k[]", for keys of one digit.
abbrev one_index : Bytes → Option (List Bytes)
one_index (a ∷ b ∷ c ∷ d ∷ []) =
    if same (a ∷ b ∷ d ∷ []) (codes "k[]") then some ((c ∷ []) ∷ []) else none
one_index _ = none

abbrev indexed_data : List (Bytes × List Bytes)
indexed_data =
    (codes "j", codes "x" ∷ [])
    ∷ (codes "k[2]", codes "b" ∷ codes "c" ∷ [])
    ∷ (codes "k[5]", codes "d" ∷ [])
    ∷ []

two_indexed :
    get_indexed sample.cast_size one_index (codes "k[]") indexed_data
    ≡ ok ((2 ∷ [], codes "b") ∷ (5 ∷ [], codes "d") ∷ [])
unfolding get_indexed indexed_from cast_indexes front insert_indexed same_indexes before_indexes
    number_below read_digits is_digit same
two_indexed = refl

get_indexed-Matches_example :
    All
      (Comes sample.cast_size one_index (codes "k[]") indexed_data)
      ((2 ∷ [], codes "b") ∷ (5 ∷ [], codes "d") ∷ [])
    × ((is : List ℕ)
        → Matches sample.cast_size one_index (codes "k[]") indexed_data is
        → answers is ((2 ∷ [], codes "b") ∷ (5 ∷ [], codes "d") ∷ []) ≡ true)
get_indexed-Matches_example =
    get_indexed-Matches sample.cast_size one_index (codes "k[]") indexed_data
      ((2 ∷ [], codes "b") ∷ (5 ∷ [], codes "d") ∷ []) two_indexed
