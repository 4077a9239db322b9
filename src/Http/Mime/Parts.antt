-- ===== src/Http/Mime/Parts.antt =====
-- Where the parts of a multipart text go: `MimeParameters_t::parseMime` and `getFiles`.
use mathlib.Core.List.{append-nil}
use threadserver.Prelude.{
  ◌≡◌, refl, sym, ap, ◌∙◌, arith, Bool, not, ◌&&◌, Option, none, some, List, [], ◌∷◌, ◌++◌, Bytes,
  codes, same, is_empty, or_else, if◌then◌else◌,
}
use threadserver.Prelude.Map.{Map, lookup, push_at, with_more, with_more-push}
use threadserver.Http.Params.{Data}
use threadserver.Http.Mime.{
  File, MimeParameters, Part, Mimetic, read_disposition, decode, store_part, store_parts,
  parse_mime, get_files,
}

-- The value behind the last key that passes a test.
abbrev pub last_of : (Bytes → Bool) → List (Bytes × Bytes) → Option Bytes
last_of test [] = none
last_of test ((key, value) ∷ params) = elim (last_of test params) [
  | some last ↦ some last
  | none ↦ if test key then some value else none
]

or_else-with_more {ℓ} :
    {V : Type ℓ} (o : Option (List V)) (vs : List V)
    → or_else (with_more o vs) [] ≡ or_else o [] ++ vs
or_else-with_more o [] = sym (append-nil (or_else o []))
or_else-with_more o (v ∷ vs) = refl

module _ (mimetic : Mimetic) where
  open mimetic use {parts, same_key}

  abbrev pub name_of : Part → Bytes
  name_of part = or_else (last_of (λ key. same_key key (codes "name")) part.disposition) []

  abbrev pub filename_of : Part → Bytes
  filename_of part =
      or_else
        (last_of (λ key. not (same_key key (codes "name")) && same_key key (codes "filename"))
          part.disposition)
        []

  -- A part with no file name and no content type is a field.
  abbrev pub is_field : Part → Bool
  is_field part = is_empty (filename_of part) && (is_empty part.type && is_empty part.subtype)

  abbrev pub file_of : Part → File
  file_of part = record {
    data_text = decode mimetic part;
    content_type = part.type ++ (b'/' ∷ part.subtype);
    filename = filename_of part;
  }

  abbrev pub fields_of : Bytes → List Part → List Bytes
  fields_of name [] = []
  fields_of name (part ∷ rest) =
      if is_field part && same (name_of part) name
      then decode mimetic part ∷ fields_of name rest
      else fields_of name rest

  abbrev pub files_of : Bytes → List Part → List File
  files_of name [] = []
  files_of name (part ∷ rest) =
      if not (is_field part) && same (name_of part) name
      then file_of part ∷ files_of name rest
      else files_of name rest

  read_disposition_lem :
      (name filename : Bytes) (params : List (Bytes × Bytes))
      → read_disposition mimetic name filename params ≡ (
        or_else (last_of (λ key. same_key key (codes "name")) params) name,
        or_else
            (last_of
              (λ key. not (same_key key (codes "name")) && same_key key (codes "filename"))
              params)
            filename,
      )
  unfolding read_disposition
  read_disposition_lem name filename [] = refl
  read_disposition_lem name filename ((key, value) ∷ params) =
      rw
        (read_disposition_lem (if same_key key (codes "name") then value else name)
          (if same_key key (codes "name")
            then filename
            else if same_key key (codes "filename")
            then value
            else filename)
          params)
        (ground arith)

  same-slash :
      (type subtype : Bytes)
      → same (type ++ (b'/' ∷ subtype)) (codes "/") ≡ (is_empty type && is_empty subtype)
  unfolding same
  same-slash [] [] = refl
  same-slash [] (c ∷ subtype) = refl
  same-slash (c ∷ []) subtype = ground arith
  same-slash (c ∷ d ∷ type) subtype = ground arith

  -- One part: either a field or a file goes in, under the name of the part.
  store_part_lem :
      (part : Part) (params : MimeParameters)
      → ((store_part mimetic part params).stored ≡ (
          if is_field part
          then push_at (name_of part) (decode mimetic part) params.stored
          else params.stored))
        × ((store_part mimetic part params).file_data ≡ (
            if not (is_field part)
            then push_at (name_of part) (file_of part) params.file_data
            else params.file_data))
  unfolding store_part
  store_part_lem part params =
      rw
        (store_part, read_disposition_lem [] [] part.disposition, same-slash part.type part.subtype)
        (ground arith)

  lookup-store_parts :
      (name : Bytes) (ps : List Part) (params : MimeParameters)
      → (lookup name (store_parts mimetic ps params).stored
          ≡ with_more (lookup name params.stored) (fields_of name ps))
        × (lookup name (store_parts mimetic ps params).file_data
            ≡ with_more (lookup name params.file_data) (files_of name ps))
  unfolding store_parts
  lookup-store_parts name [] params = (refl, refl)
  lookup-store_parts name (part ∷ ps) params =
      let (fields, files) = lookup-store_parts name ps (store_part mimetic part params) in
      let (stored, file_data) = store_part_lem part params in
      (
        fields
            ∙ ap (λ (m : Data). with_more (lookup name m) (fields_of name ps)) stored
            ∙ with_more-push (is_field part) name (name_of part) (decode mimetic part) params.stored
                (fields_of name ps),
        files
            ∙ ap (λ (m : Map (List File)). with_more (lookup name m) (files_of name ps)) file_data
            ∙ with_more-push (not (is_field part)) name (name_of part) (file_of part)
                params.file_data (files_of name ps),
      )

  -- No part of a multipart text is lost or goes to two places: behind the values that a name has
  -- already come those of the fields of that name, decoded and in their order; behind its files come
  -- the parts of that name that have a file name or a content type.
  pub get_files-parse_mime :
      (text name : Bytes) (params : MimeParameters)
      → (lookup name (parse_mime mimetic text params).stored
          ≡ with_more (lookup name params.stored) (fields_of name (parts text)))
        × (get_files name (parse_mime mimetic text params)
            ≡ get_files name params ++ files_of name (parts text))
  unfolding parse_mime get_files
  get_files-parse_mime text name params =
      let (fields, files) = lookup-store_parts name (parts text) params in
      (
        fields,
        ap (λ (o : Option (List File)). or_else o []) files
            ∙ or_else-with_more (lookup name params.file_data) (files_of name (parts text)),
      )
