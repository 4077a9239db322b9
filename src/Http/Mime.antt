-- ===== src/Http/Mime.antt =====
-- `MimeParameters_t` of cpphttphandler.h and cpphttphandler.cc: form data with files. The MIME
-- library is a parameter: it takes a text apart into parts, and decodes their bodies.
pub mod Parts
use threadserver.Prelude.{
  ℕ, Option, Result, Bool, List, [], ◌∷◌, ◌++◌, ◌&&◌, Bytes, codes, same, is_empty, or_else,
  if◌then◌else◌,
}
use threadserver.Prelude.Map.{Map, lookup, push_at}
use threadserver.Http.Params.{Data, ParamError}
use threadserver.Http.Params.Indexed.{Indexed, get_indexed}

pub record File : Type 0 where
  pub data_text : Bytes
  pub content_type : Bytes
  pub filename : Bytes

pub record MimeParameters : Type 0 where
  pub stored : Data
  pub file_data : Map (List File)

-- One entity, as `mimetic` presents it: the content type, the parameters of the disposition, the
-- name of the transfer encoding, and the raw body.
pub record Part : Type 0 where
  pub type : Bytes
  pub subtype : Bytes
  pub disposition : List (Bytes × Bytes)
  pub mechanism : Bytes
  pub body : Bytes

-- `mimetic`: `same_key` is the comparison of its `istring`.
pub record Mimetic : Type 0 where
  pub parts : Bytes → List Part
  pub same_key : Bytes → Bytes → Bool
  pub base64_name : Bytes
  pub quoted_printable_name : Bytes
  pub decode_base64 : Bytes → Bytes
  pub decode_quoted_printable : Bytes → Bytes

module _ (mimetic : Mimetic) where
  open mimetic use {
    parts, same_key, base64_name, quoted_printable_name, decode_base64, decode_quoted_printable,
  }

  -- The loop over the disposition: `name` and `file.filename`, the last of each.
  unfoldable pub read_disposition : (name filename : Bytes) → List (Bytes × Bytes) → Bytes × Bytes
  read_disposition name filename [] = (name, filename)
  read_disposition name filename ((key, value) ∷ params) =
      let is_name = same_key key (codes "name") in
      let is_filename = same_key key (codes "filename") in
      read_disposition (if is_name then value else name)
        (if is_name then filename else if is_filename then value else filename) params

  unfoldable pub decode : Part → Bytes
  decode part =
      if same_key part.mechanism base64_name
      then decode_base64 part.body
      else if same_key part.mechanism quoted_printable_name
      then decode_quoted_printable part.body
      else part.body

  -- One round of the loop of `parseMime`.
  unfoldable pub store_part : Part → MimeParameters → MimeParameters
  unfolding read_disposition decode
  store_part part params =
      let (name, filename) = read_disposition [] [] part.disposition in
      let content_type = part.type ++ (b'/' ∷ part.subtype) in
      let text = decode part in
      if is_empty filename && same content_type (codes "/")
      then record params { stored = push_at name text params.stored }
      else record params {
        file_data =
            push_at name
              (record { data_text = text; content_type = content_type; filename = filename })
              params.file_data;
      }

  unfoldable pub store_parts : List Part → MimeParameters → MimeParameters
  store_parts [] params = params
  store_parts (part ∷ rest) params = store_parts rest (store_part part params)

  unfoldable pub parse_mime : Bytes → MimeParameters → MimeParameters
  parse_mime text params = store_parts (parts text) params

unfoldable pub get_files : Bytes → MimeParameters → List File
get_files name params = or_else (lookup name params.file_data) []

-- `getIndexedFiles`
unfoldable pub get_indexed_files :
    (cast_size : Bytes → Option ℕ)
    → (groups_of : Bytes → Option (List Bytes)) → Bytes
    → MimeParameters
    → Result ParamError (Indexed File)
unfolding get_indexed
get_indexed_files cast_size groups_of name params =
    get_indexed cast_size groups_of name params.file_data
